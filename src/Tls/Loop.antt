-- ===== src/Tls/Loop.antt =====
-- The loop shape of tls/extensions.py and tls/handshake.py, `while reader.remaining >= n:`.
-- What the body has assigned before it raises is kept; the fuel bounds the number of rounds.
pub mod Fuel
pub mod Invariant
use securemailscope.Base.{ℕ, zero, suc, ltb, if◌then◌else◌}
use securemailscope.Tls.Wire.{ByteReader, Result, ok, err, Read, remaining}

-- What a body says at its end: go round again, or `break`.
pub data Next {ℓ} (S : Type ℓ) : Type ℓ where
  again : S → Next S
  leave : S → Next S

abbrev pub Ran {ℓ} : Type ℓ → Type ℓ
Ran S = Result (Unit {0}) × S × ByteReader

module _ {ℓ} {S : Type ℓ} (least : ℕ) (body : S → Read (Next S)) where
  -- One round, with the rest of the loop given.
  unfoldable pub round : (S → ByteReader → Ran S) → S → Result (Next S) × ByteReader → Ran S
  round loop s (ok (again s'), r) = loop s' r
  round loop s (ok (leave s'), r) = (ok tt, s', r)
  round loop s (err e, r) = (err e, s, r)

  unfoldable pub unrolled : (S → ByteReader → Ran S) → S → ByteReader → Ran S
  unrolled loop s r = if ltb (remaining r) least then (ok tt, s, r) else round loop s (body s r)

  unfoldable pub while_remaining : ℕ → S → ByteReader → Ran S
  while_remaining zero s r = (ok tt, s, r)
  while_remaining (suc fuel) s r = unrolled (while_remaining fuel) s r

-- The value of the loop's variable, if the loop did not raise.
unfoldable pub finished {ℓ} : {S : Type ℓ} → Ran S → Result S
finished (ok _, s, r) = ok s
finished (err e, s, r) = err e

-- A loop over a reader of its own, with a round for each byte and one more.
abbrev pub loop_over {ℓ} : {S : Type ℓ} → ℕ → (S → Read (Next S)) → S → ByteReader → Ran S
loop_over least body s r = while_remaining least body (suc (remaining r)) s r
