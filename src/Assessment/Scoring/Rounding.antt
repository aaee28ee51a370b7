-- ===== src/Assessment/Scoring/Rounding.antt =====
-- Rounding to the nearest, with ties to the even, keeps the order.
use native.Mathlib.Nat.{div-mul-le_self, le-div_iff_mul-le}
use securemailscope.Base.{
  ℕ, ◌+◌, ◌-◌, ◌*◌, ◌/◌, ◌≤◌, ◌<◌, ◌≡◌, ltb, arith, Bool-cases, inl, inr, ltb→lt, not_ltb→le,
}
use securemailscope.Assessment.Scoring.{half_even, round}

half_even-bounds : (q r d : ℕ) → (q ≤ half_even q r d) × (half_even q r d ≤ q + 1)
unfolding half_even
half_even-bounds q r d = (ground arith, ground arith)

half_even_mono : (q r s d : ℕ) → r ≤ s → half_even q r d ≤ half_even q s d
unfolding half_even
half_even_mono q r s d h = ground arith

div_mono : (m n d : ℕ) → 0 < d → m ≤ n → m / d ≤ n / d
div_mono m n d h k = (le-div_iff_mul-le h).1 (omega (arith, div-mul-le_self m d, k))

-- A greater quotient is not rounded to less.
pub round_mono : (m n d : ℕ) → 0 < d → m ≤ n → round m d ≤ round n d
unfolding round
round_mono m n d h k =
    let q = div_mono m n d h k in
    let a = half_even-bounds (m / d) (m - m / d * d) d in
    let b = half_even-bounds (n / d) (n - n / d * d) d in
    elim (Bool-cases (ltb (m / d) (n / d))) [
      | inl t ↦ omega (arith, ltb→lt _ _ t, a.1, b.0)
      | inr f ↦
          let e : m / d ≡ n / d = omega (arith, q, not_ltb→le _ _ f) in
          rw e (half_even_mono (n / d) (m - n / d * d) (n - n / d * d) d (omega (arith, k)))
    ]

half_even_wider : (q r s d w : ℕ) → r ≤ s → half_even q r (d + w) ≤ half_even q s d
unfolding half_even
half_even_wider q r s d w h = ground arith

div_wider : (n d w : ℕ) → 0 < d → n / (d + w) ≤ n / d
div_wider n d w h = (le-div_iff_mul-le h).1 (omega (arith, div-mul-le_self n (d + w)))

-- With a greater denominator a quotient is not rounded to more.
pub round_wider : (n d w : ℕ) → 0 < d → round n (d + w) ≤ round n d
unfolding round
round_wider n d w h =
    let q = div_wider n d w h in
    let a = half_even-bounds (n / (d + w)) (n - n / (d + w) * (d + w)) (d + w) in
    let b = half_even-bounds (n / d) (n - n / d * d) d in
    elim (Bool-cases (ltb (n / (d + w)) (n / d))) [
      | inl t ↦ omega (arith, ltb→lt _ _ t, a.1, b.0)
      | inr f ↦
          let e : n / (d + w) ≡ n / d = omega (arith, q, not_ltb→le _ _ f) in
          rw e (half_even_wider (n / d) (n - n / d * (d + w)) (n - n / d * d) d w (omega arith))
    ]
