-- ===== src/Network/SequenceSpace/Projection.antt =====
-- The projection and its inverse, and when the projection is exact.
use securemailscope.Base.{
  ℕ, ◌+◌, ◌%◌, ◌/◌, ◌*◌, ◌<◌, ◌≡◌, refl, leb, inl, inr, arith, Bool-cases, leb→le, not_leb→lt,
}
use securemailscope.Base.Int.{
  ℤ, pos, negsuc, pos_part, neg_part, ◌+ℤ◌, ◌-ℤ◌, ◌≤ℤ◌, ◌<ℤ◌, mod_ℤ, +ℤ_parts, -ℤ_parts,
  eq_of_parts,
}
use securemailscope.Network.SequenceSpace.{
  SequenceSpace, seq_modulus, distance, new, project, extend, to_sequence,
}

-- A remainder modulo 2 ^ 32, as an equation that `omega` reads; the quotient is an integer.
IsRemainder : ℤ → ℕ → ℤ → Type 0
IsRemainder a n q =
    (pos_part a + neg_part q * 4294967296 ≡ neg_part a + pos_part q * 4294967296 + n)
    × (n < 4294967296)

mod_ℤ-IsRemainder : (a : ℤ) → (q : ℤ) × IsRemainder a (mod_ℤ a 4294967296) q
unfolding mod_ℤ IsRemainder
mod_ℤ-IsRemainder (pos n) = (pos (n / 4294967296), (omega arith, omega arith))
mod_ℤ-IsRemainder (negsuc n) = (negsuc (n / 4294967296), (omega arith, omega arith))

-- The marks of one space agree: the high-water mark is the image of its own number.
pub record IsAnchored (s : SequenceSpace) : Type 0 where
  pub base_range : s.base32 < seq_modulus
  pub hi_range : s.hi32 < seq_modulus
  pub agrees : to_sequence s s.hi_ext ≡ s.hi32

pub new-IsAnchored : (base : ℕ) → IsAnchored (new base)
unfolding new to_sequence ◌+ℤ◌ mod_ℤ
new-IsAnchored base = record {
  base_range = ground arith;
  hi_range = ground arith;
  agrees = ground arith;
}

module _ (s : SequenceSpace) where
  image :
      (e : ℤ)
      → (q : ℤ) × (s.base32 + pos_part e + neg_part q * 4294967296
          ≡ neg_part e + pos_part q * 4294967296 + to_sequence s e)
        × (to_sequence s e < 4294967296)
  unfolding to_sequence IsRemainder
  image e =
      let a = pos s.base32 +ℤ e in
      let (q, r) = mod_ℤ-IsRemainder a in
      let p = +ℤ_parts (pos s.base32) e in (q, omega (arith, p, r.0), r.1)

  -- A number seen ahead or behind of the mark is the image of what it is projected to.
  ahead :
      IsAnchored s
      → (n : ℕ) → n < 4294967296
      → to_sequence s (s.hi_ext +ℤ pos (distance n s.hi32)) ≡ n
  ahead a n h =
      let e = s.hi_ext +ℤ pos (distance n s.hi32) in
      let (q, c, lt) = image e in
      let (q', c', lt') = image s.hi_ext in
      omega (arith, c, lt, c', a.agrees, a.hi_range, +ℤ_parts s.hi_ext (pos (distance n s.hi32)))

  behind :
      IsAnchored s
      → (n : ℕ) → n < 4294967296
      → to_sequence s (s.hi_ext -ℤ pos (distance s.hi32 n)) ≡ n
  behind a n h =
      let e = s.hi_ext -ℤ pos (distance s.hi32 n) in
      let (q, c, lt) = image e in
      let (q', c', lt') = image s.hi_ext in
      omega (arith, c, lt, c', a.agrees, a.hi_range, -ℤ_parts s.hi_ext (pos (distance s.hi32 n)))

  -- `to_sequence` is the inverse of `project` on sequence numbers.
  pub to_sequence-project :
      (seq : ℕ) → IsAnchored s → to_sequence s (project s seq) ≡ seq % seq_modulus
  unfolding project
  to_sequence-project seq a =
      let n = seq % seq_modulus in
      elim (Bool-cases (leb (distance n s.hi32) (distance s.hi32 n))) [
        | inl f ↦ rw f (ahead a n (omega arith))
        | inr f ↦ rw f (behind a n (omega arith))
      ]

  -- An offset less than 2 ^ 31 away from the high-water mark, on either side, is recovered from
  -- its sequence number alone.
  pub project-to_sequence :
      (e : ℤ)
      → IsAnchored s
      → e <ℤ (s.hi_ext +ℤ pos 2147483648)
      → s.hi_ext <ℤ (e +ℤ pos 2147483648)
      → project s (to_sequence s e) ≡ e
  unfolding project
  project-to_sequence e a h k =
      let n = to_sequence s e in
      let m = to_sequence s e % seq_modulus in
      let (q, c, lt) = image e in
      let (q', c', lt') = image s.hi_ext in
      let up = +ℤ_parts s.hi_ext (pos (distance m s.hi32)) in
      let down = -ℤ_parts s.hi_ext (pos (distance s.hi32 m)) in
      let high = +ℤ_parts s.hi_ext (pos 2147483648) in
      let low = +ℤ_parts e (pos 2147483648) in
      elim (Bool-cases (leb (distance m s.hi32) (distance s.hi32 m))) [
        | inl f ↦ rw f (
            eq_of_parts _ _
              (omega (arith, c, lt, c', a.agrees, a.hi_range, up, high, low, leb→le _ _ f)))
        | inr f ↦ rw f (
            eq_of_parts _ _
              (omega (arith, c, lt, c', a.agrees, a.hi_range, down, high, low, not_leb→lt _ _ f)))
      ]

  pub extend-eq-project : (seq : ℕ) → (extend s seq).0 ≡ project s seq
  unfolding extend project
  extend-eq-project seq = ground arith

  -- Advancing keeps the marks in agreement.
  pub extend-IsAnchored : (seq : ℕ) → IsAnchored s → IsAnchored (extend s seq).1
  unfolding extend to_sequence
  extend-IsAnchored seq a =
      let n = seq % seq_modulus in
      elim (Bool-cases (leb (distance n s.hi32) (distance s.hi32 n))) [
        | inl f ↦ rw f (record {
          base_range = a.base_range;
          hi_range = omega arith;
          agrees = ahead a n (omega arith);
        })
        | inr f ↦ rw f a
      ]

  -- Advancing never moves the high-water mark back, returns no offset ahead of it, and leaves the
  -- base as it is.
  pub extend_forward :
      (seq : ℕ)
      → (s.hi_ext ≤ℤ (extend s seq).1.hi_ext)
        × ((extend s seq).0 ≤ℤ (extend s seq).1.hi_ext)
        × ((extend s seq).1.base32 ≡ s.base32)
  unfolding extend
  extend_forward seq =
      let n = seq % seq_modulus in
      let up = +ℤ_parts s.hi_ext (pos (distance n s.hi32)) in
      let down = -ℤ_parts s.hi_ext (pos (distance s.hi32 n)) in
      elim (Bool-cases (leb (distance n s.hi32) (distance s.hi32 n))) [
        | inl f ↦ rw f (omega (arith, up), omega arith, refl)
        | inr f ↦ rw f (omega arith, omega (arith, down), refl)
      ]
