-- ===== src/Network/SequenceSpace.antt =====
-- network/seqspace.py: 32-bit sequence numbers projected into integers that do not wrap.
pub mod Projection
use securemailscope.Base.{ℕ, ◌+◌, ◌-◌, ◌%◌, ◌&&◌, ltb, leb, if◌then◌else◌}
use securemailscope.Base.Int.{ℤ, pos, ◌+ℤ◌, ◌-ℤ◌, mod_ℤ}

-- 2 ^ 32
abbrev pub seq_modulus : ℕ
seq_modulus = 4294967296

pub record SequenceSpace : Type 0 where
  pub base32 : ℕ
  pub hi32 : ℕ
  pub hi_ext : ℤ
  pub wraparounds : ℕ

-- SequenceSpace(base)
unfoldable pub new : ℕ → SequenceSpace
new base = record {
  base32 = base % seq_modulus;
  hi32 = base % seq_modulus;
  hi_ext = pos 0;
  wraparounds = 0;
}

-- (a - b) % SEQ_MODULUS for two 32-bit numbers.
abbrev pub distance : ℕ → ℕ → ℕ
distance a b = (a + seq_modulus - b) % seq_modulus

project_masked : SequenceSpace → ℕ → ℤ
project_masked s seq32 =
    let forward = distance seq32 s.hi32 in
    let backward = distance s.hi32 seq32 in
    if leb forward backward then s.hi_ext +ℤ pos forward else s.hi_ext -ℤ pos backward

unfoldable pub project : SequenceSpace → ℕ → ℤ
unfolding project_masked
project s seq = project_masked s (seq % seq_modulus)

extend_masked : SequenceSpace → ℕ → ℤ × SequenceSpace
extend_masked s seq32 =
    let forward = distance seq32 s.hi32 in
    let backward = distance s.hi32 seq32 in
    let extended = s.hi_ext +ℤ pos forward in
    let wraps = ltb seq32 s.hi32 && ltb 0 forward in
    if leb forward backward
    then (
      extended,
      record s {
        hi32 = seq32;
        hi_ext = extended;
        wraparounds = if wraps then s.wraparounds + 1 else s.wraparounds;
      },
    )
    else (s.hi_ext -ℤ pos backward, s)

unfoldable pub extend : SequenceSpace → ℕ → ℤ × SequenceSpace
unfolding extend_masked
extend s seq = extend_masked s (seq % seq_modulus)

unfoldable pub to_sequence : SequenceSpace → ℤ → ℕ
to_sequence s extended = mod_ℤ (pos s.base32 +ℤ extended) seq_modulus
