-- ===== src/Tls/Loop/Fuel.antt =====
-- The fuel is enough: with more rounds than bytes left, the loop solves its own equation.
use securemailscope.Base.{
  ℕ, zero, suc, ◌≤◌, ◌<◌, ◌≡◌, refl, ap, sym, length, ltb, inl, inr, arith, Bool-cases, not_ltb→le,
}
use securemailscope.Tls.Wire.{ByteReader, Result, ok, err, Read, remaining}
use securemailscope.Tls.Wire.Takes.{Strict, Takes}
use securemailscope.Tls.Wire.Moves.{Moved, Moves, IsWithin, Moved-IsWithin}
use securemailscope.Tls.Loop.{Next, again, leave, round, unrolled, while_remaining}

abbrev GoesOn {ℓ} : {S : Type ℓ} → ByteReader → Result (Next S) × ByteReader → Type 0
GoesOn r (ok (again s), r') = r.position < r'.position
GoesOn r _ = Unit

-- Each round that goes on has taken a byte.
pub record Progress {ℓ} {S : Type ℓ} (least : ℕ) (body : S → Read (Next S)) : Type ℓ where
  pub moves : (s : S) → Moves (body s)
  pub takes : (s : S) (r : ByteReader) → IsWithin r → least ≤ remaining r → GoesOn r (body s r)

module _ {ℓ} {S : Type ℓ} (least : ℕ) (body : S → Read (Next S)) (p : Progress least body) where
  abbrev Steady : ℕ → Type ℓ
  Steady fuel =
      (s : S) (r : ByteReader)
      → IsWithin r
      → remaining r < fuel
      → while_remaining least body (suc fuel) s r ≡ while_remaining least body fuel s r

  round-Steady :
      (fuel : ℕ)
      → Steady fuel
      → (s : S) (r : ByteReader) → remaining r < suc fuel
      → (x : Result (Next S)) (r' : ByteReader) → Moved r r'
      → GoesOn r (x, r')
      → round least body (while_remaining least body (suc fuel)) s (x, r')
        ≡ round least body (while_remaining least body fuel) s (x, r')
  unfolding round remaining
  round-Steady fuel ih s r h (ok (again s')) r' m t =
      ih s' r' (Moved-IsWithin m) (omega (arith, ap length m.buffer, m.within))
  round-Steady fuel ih s r h (ok (leave s')) r' m t = refl
  round-Steady fuel ih s r h (err e) r' m t = refl

  steady : (fuel : ℕ) → Steady fuel
  unfolding while_remaining unrolled
  steady zero s r w h = absurd (omega arith)
  steady (suc fuel) s r w h = elim (Bool-cases (ltb (remaining r) least)) [
    | inl few ↦ rw few
    | inr more ↦ rw more (
        round-Steady fuel (steady fuel) s r h (body s r).0 (body s r).1 ((p.moves s).at r w)
          (p.takes s r w (not_ltb→le _ _ more)))
  ]

  -- The fuel that the code's loops are given never ends them.
  pub while_remaining_lem :
      (fuel : ℕ) (s : S) (r : ByteReader)
      → IsWithin r
      → remaining r < fuel
      → while_remaining least body fuel s r
        ≡ unrolled least body (while_remaining least body fuel) s r
  unfolding while_remaining
  while_remaining_lem fuel s r w h = sym (steady fuel s r w h)

-- A body that takes a byte whenever it returns makes progress.
goes_on :
    {S : Type 0} (r : ByteReader) (x : Result (Next S)) (r' : ByteReader)
    → Strict r (x, r')
    → GoesOn r (x, r')
goes_on r (ok (again s)) r' t = t
goes_on r (ok (leave s)) r' t = tt
goes_on r (err e) r' t = tt

pub Progress-Takes :
    {S : Type 0} (least : ℕ) (body : S → Read (Next S))
    → ((s : S) → Takes (body s))
    → Progress least body
Progress-Takes least body h = record {
  moves = λ s. (h s).moves;
  takes = λ s r w _. goes_on r (body s r).0 (body s r).1 ((h s).strict r w);
}
