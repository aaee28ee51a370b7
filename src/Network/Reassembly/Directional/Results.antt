-- ===== src/Network/Reassembly/Directional/Results.antt =====
-- `_base_ext`, `payload_runs`, `_build_gaps` and `_gap`: what `finalize` computes from the store.
use securemailscope.Base.{
  ℕ, ◌+◌, Bool, true, false, ◌&&◌, ◌||◌, not, List, [], ◌∷◌, ◌++◌, Option, none, some, length, any,
  ltb, leb, if◌then◌else◌,
}
use securemailscope.Base.Int.{ℤ, pos, ◌+ℤ◌, ◌-ℤ◌, gap, ltb_ℤ, leb_ℤ, max_ℤ, min_ℤ}
use securemailscope.Evidence.{PacketReference, EvidenceStatus}
use securemailscope.Network.Reassembly.Intervals.{Interval, end_of}
use securemailscope.Network.Reassembly.Directional.{DirectionalReassembler, eq_ℤ}

unfoldable pub lowest_of : Option ℤ → List Interval → Option ℤ
lowest_of none [] = none
lowest_of none (iv ∷ _) = some iv.start
lowest_of (some syn) [] = some (syn +ℤ pos 1)
lowest_of (some syn) (iv ∷ _) = some (min_ℤ (syn +ℤ pos 1) iv.start)

-- _base_ext
unfoldable pub base_ext : DirectionalReassembler → Option ℤ
unfolding lowest_of
base_ext s = lowest_of s.syn_ext s.intervals

-- A run of `payload_runs`, by the extended sequence number of its first byte. The offset in the
-- stream is that number less the base.
abbrev pub Run : Type 0
Run = ℤ × List ℕ

-- The runs of the intervals behind an open run.
unfoldable pub runs_from : Run → List Interval → List Run
unfolding eq_ℤ
runs_from run [] = run ∷ []
runs_from (start, bytes) (iv ∷ ivs) =
    let joined = runs_from (start, bytes ++ iv.bytes) ivs in
    let apart = runs_from (iv.start, iv.bytes) ivs in
    elim (eq_ℤ (start +ℤ pos (length bytes)) iv.start) [
      | true ↦ joined
      | false ↦ (start, bytes) ∷ apart
    ]

unfoldable pub runs_of : List Interval → List Run
unfolding runs_from
runs_of [] = []
runs_of (iv ∷ ivs) = runs_from (iv.start, iv.bytes) ivs

unfoldable pub rebase : ℤ → List Run → List (ℤ × List ℕ)
rebase base [] = []
rebase base ((start, bytes) ∷ runs) = (start -ℤ base, bytes) ∷ rebase base runs

unfoldable pub based_runs : Option ℤ → List Interval → List (ℤ × List ℕ)
based_runs none ivs = []
based_runs (some base) ivs = rebase base (runs_of ivs)

-- payload_runs
unfoldable pub payload_runs : DirectionalReassembler → List (ℤ × List ℕ)
unfolding based_runs runs_of rebase
payload_runs s = based_runs (base_ext s) s.intervals

pub data GapReason : Type 0 where
  not_captured limit_exceeded missing_segment : GapReason

pub record ReassemblyGap : Type 0 where
  pub stream_offset : ℤ
  pub length : ℕ
  pub reason : GapReason
  pub content_status : EvidenceStatus
  pub preceding_packet : Option PacketReference
  pub following_packet : Option PacketReference

-- _intersects
unfoldable pub intersects : ℤ → ℤ → List (ℤ × ℤ) → Bool
intersects start end ranges = any (λ r. not (leb_ℤ r.1 start || leb_ℤ end r.0)) ranges

packet_of : Option Interval → Option PacketReference
packet_of none = none
packet_of (some iv) = some iv.packet

-- _gap
unfoldable pub gap_between :
    DirectionalReassembler → ℤ → ℤ → ℤ → Option Interval → Option Interval → ReassemblyGap
unfolding intersects packet_of
gap_between s start end base previous following = record {
  stream_offset = start -ℤ base;
  length = gap end start;
  reason =
      if intersects start end s.not_captured
      then GapReason.not_captured
      else if intersects start end s.limit_dropped
      then GapReason.limit_exceeded
      else GapReason.missing_segment;
  content_status = EvidenceStatus.unknown;
  preceding_packet = packet_of previous;
  following_packet = packet_of following;
}

-- max(claimed_end, end) over recorded ranges.
unfoldable pub latest_end : ℤ → List (ℤ × ℤ) → ℤ
latest_end claimed [] = claimed
latest_end claimed ((_, end) ∷ ranges) = latest_end (max_ℤ claimed end) ranges

module _ (s : DirectionalReassembler) (max_gaps : ℕ) (base : ℤ) (claimed_end : ℤ) where
  unfoldable pub last_gap : ℕ → ℤ → Option Interval → List ReassemblyGap
  last_gap count cursor previous =
      if ltb_ℤ cursor claimed_end && ltb count max_gaps
      then gap_between s cursor claimed_end base previous none ∷ []
      else []

  unfoldable pub add_gap : ℤ → Option Interval → Interval → List ReassemblyGap → List ReassemblyGap
  add_gap cursor previous iv rest =
      if ltb_ℤ cursor iv.start
      then gap_between s cursor iv.start base previous (some iv) ∷ rest
      else rest

  -- The walk of `_build_gaps`; `count` is the number of gaps so far.
  unfoldable pub gaps_from : ℕ → ℤ → Option Interval → List Interval → List ReassemblyGap
  unfolding last_gap add_gap
  gaps_from count cursor previous [] = last_gap count cursor previous
  gaps_from count cursor previous (iv ∷ ivs) =
      let count' = if ltb_ℤ cursor iv.start then count + 1 else count in
      let rest = gaps_from count' (max_ℤ cursor (end_of iv)) (some iv) ivs in
      add_gap cursor previous iv (if leb max_gaps count' then [] else rest)

unfoldable pub last_end : ℤ → List Interval → ℤ
last_end end [] = end
last_end end (iv ∷ ivs) = last_end (end_of iv) ivs

unfoldable pub claimed : DirectionalReassembler → ℤ → List Interval → ℤ
claimed s end ivs = latest_end (latest_end (last_end end ivs) s.not_captured) s.limit_dropped

-- _build_gaps
abbrev pub gaps_of : DirectionalReassembler → ℕ → ℤ → List Interval → List ReassemblyGap
gaps_of s max_gaps base [] = []
gaps_of s max_gaps base (iv ∷ ivs) =
    gaps_from s max_gaps base (claimed s (end_of iv) ivs) 0 iv.start none (iv ∷ ivs)

unfoldable pub build_gaps : DirectionalReassembler → ℕ → ℤ → List ReassemblyGap
build_gaps s max_gaps base = gaps_of s max_gaps base s.intervals
