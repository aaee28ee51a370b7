-- ===== src/Tls/Loop/Invariant.antt =====
-- The rule for an invariant of the loop's variable.
use securemailscope.Base.{ℕ, zero, suc, ltb, inl, inr, Bool-cases}
use securemailscope.Tls.Wire.{ByteReader, Result, ok, err, Read, remaining}
use securemailscope.Tls.Loop.{Next, again, leave, Ran, round, unrolled, while_remaining}

abbrev pub Holds {ℓ κ} : {S : Type ℓ} → (S → Type κ) → Result (Next S) → Type κ
Holds P (ok (again s)) = P s
Holds P (ok (leave s)) = P s
Holds P (err e) = Unit

module _ {ℓ κ} {S : Type ℓ} (P : S → Type κ) (least : ℕ) (body : S → Read (Next S))
    (keeps : (s : S) (r : ByteReader) → P s → Holds P (body s r).0) where
  round_inv :
      (loop : S → ByteReader → Ran S)
      → ((s : S) (r : ByteReader) → P s → P (loop s r).1)
      → (s : S) → P s
      → (x : Result (Next S)) (r : ByteReader) → Holds P x
      → P (round least body loop s (x, r)).1
  unfolding round
  round_inv loop ih s h (ok (again s')) r k = ih s' r k
  round_inv loop ih s h (ok (leave s')) r k = k
  round_inv loop ih s h (err e) r k = h

  -- The invariant holds whether the loop ended or raised.
  pub while_remaining_inv :
      (fuel : ℕ) (s : S) (r : ByteReader) → P s → P (while_remaining least body fuel s r).1
  unfolding while_remaining unrolled
  while_remaining_inv zero s r h = h
  while_remaining_inv (suc fuel) s r h = elim (Bool-cases (ltb (remaining r) least)) [
    | inl few ↦ rw few h
    | inr more ↦ rw more (
        round_inv (while_remaining least body fuel) (while_remaining_inv fuel) s h (body s r).0
          (body s r).1 (keeps s r h))
  ]
