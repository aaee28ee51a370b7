-- ===== src/Tls/Wire/Takes.antt =====
-- Reads that take at least one byte when they return.
use securemailscope.Base.{ℕ, suc, ◌<◌, arith}
use securemailscope.Tls.Wire.{
  ByteReader, Result, ok, err, Read, take_bytes, u8, u16, vector8, vector16, vector24, u24,
  then_read, ◌>>=◌,
}
use securemailscope.Tls.Wire.Moves.{
  Moved, Moves, IsWithin, Moved-IsWithin, Moves-bind, Moves-pure, Moves-take_bytes,
}

abbrev pub Strict {ℓ} : {A : Type ℓ} → ByteReader → Result A × ByteReader → Type 0
Strict r (ok a, s) = r.position < s.position
Strict r (err e, s) = Unit

pub record Takes {ℓ} {A : Type ℓ} (m : Read A) : Type ℓ where
  pub moves : Moves m
  pub strict : (r : ByteReader) → IsWithin r → Strict r (m r)

module _ {ℓ κ} {A : Type ℓ} {B : Type κ} where
  Strict-left :
      (r : ByteReader) (x : Result A) (s : ByteReader) (f : A → Read B)
      → Moved r s
      → Strict r (x, s)
      → ((a : A) → Moves (f a))
      → Strict r (then_read (x, s) f)
  Strict-left r (err e) s f m t k = tt
  Strict-left r (ok a) s f m t k = further (f a s).0 (f a s).1 ((k a).at s (Moved-IsWithin m))
    where
      further : (y : Result B) (u : ByteReader) → Moved s u → Strict r (y, u)
      further (ok b) u n = omega (arith, t, n.forward)
      further (err e) u n = tt

  pub Takes-bind :
      (m : Read A) (f : A → Read B) → Takes m → ((a : A) → Moves (f a)) → Takes (m >>= f)
  Takes-bind m f h k = record {
    moves = Moves-bind m f h.moves k;
    strict = λ r w. Strict-left r (m r).0 (m r).1 f (h.moves.at r w) (h.strict r w) k;
  }

Takes-take_bytes : (n : ℕ) → Takes (take_bytes (suc n))
unfolding take_bytes
Takes-take_bytes n = record { moves = Moves-take_bytes (suc n); strict = λ r w. ground arith }

pub Takes-u8 : Takes u8
unfolding u8
Takes-u8 = Takes-bind _ _ (Takes-take_bytes 0) (λ raw. Moves-pure _)

pub Takes-u16 : Takes u16
unfolding u16
Takes-u16 = Takes-bind _ _ (Takes-take_bytes 1) (λ raw. Moves-pure _)

pub Takes-u24 : Takes u24
unfolding u24
Takes-u24 = Takes-bind _ _ (Takes-take_bytes 2) (λ raw. Moves-pure _)

pub Takes-vector8 : Takes vector8
unfolding vector8
Takes-vector8 = Takes-bind _ _ Takes-u8 Moves-take_bytes

pub Takes-vector16 : Takes vector16
unfolding vector16
Takes-vector16 = Takes-bind _ _ Takes-u16 Moves-take_bytes

pub Takes-vector24 : Takes vector24
unfolding vector24
Takes-vector24 = Takes-bind _ _ Takes-u24 Moves-take_bytes
