-- ===== src/Tls/Wire/Moves.antt =====
-- A read leaves the buffer alone and moves the position forward, never past the end.
use securemailscope.Base.{ℕ, ◌≤◌, ◌≡◌, refl, ap, ◌∙◌, length, arith}
use securemailscope.Tls.Wire.{
  ByteReader, Result, ok, err, Read, TlsParseError, pure, raise, lift, take_bytes, u8, u16, u24,
  u32, vector8, vector16, vector24, then_read, ◌>>=◌,
}

pub record Moved (r s : ByteReader) : Type 0 where
  pub buffer : s.buffer ≡ r.buffer
  pub forward : r.position ≤ s.position
  pub within : s.position ≤ length r.buffer

abbrev pub IsWithin : ByteReader → Type 0
IsWithin r = r.position ≤ length r.buffer

-- From a reader inside its buffer, the action ends inside it, whether it returns or raises.
pub record Moves {ℓ} {A : Type ℓ} (m : Read A) : Type ℓ where
  pub at : (r : ByteReader) → IsWithin r → Moved r (m r).1

pub Moved-IsWithin : {r s : ByteReader} → Moved r s → IsWithin s
Moved-IsWithin m = omega (arith, m.within, ap length m.buffer)

pub Moved-trans : {r s t : ByteReader} → Moved r s → Moved s t → Moved r t
Moved-trans m n = record {
  buffer = n.buffer ∙ m.buffer;
  forward = omega (arith, m.forward, n.forward);
  within = omega (arith, n.within, ap length m.buffer);
}

pub Moves-pure {ℓ} : {A : Type ℓ} (a : A) → Moves (pure a)
Moves-pure a = record { at = λ r h. record { buffer = refl; forward = omega arith; within = h } }

pub Moves-raise {ℓ} : {A : Type ℓ} (e : TlsParseError) → Moves (raise {A = A} e)
Moves-raise e = record { at = λ r h. record { buffer = refl; forward = omega arith; within = h } }

pub Moves-lift {ℓ} : {A : Type ℓ} (x : Result A) → Moves (lift x)
Moves-lift (ok a) = Moves-pure a
Moves-lift (err e) = Moves-raise e

module _ {ℓ κ} {A : Type ℓ} {B : Type κ} where
  after :
      (r : ByteReader) (x : Result A) (s : ByteReader) (f : A → Read B)
      → Moved r s
      → ((a : A) → Moves (f a))
      → Moved r (then_read (x, s) f).1
  after r (ok a) s f m k = Moved-trans m ((k a).at s (Moved-IsWithin m))
  after r (err e) s f m k = m

  pub Moves-bind :
      (m : Read A) (f : A → Read B) → Moves m → ((a : A) → Moves (f a)) → Moves (m >>= f)
  Moves-bind m f h k = record { at = λ r w. let (x, s) = m r in after r x s f (h.at r w) k }

pub Moves-take_bytes : (count : ℕ) → Moves (take_bytes count)
unfolding take_bytes
Moves-take_bytes count = record {
  at = λ r w. record { buffer = ground arith; forward = ground arith; within = ground arith };
}

pub ruleset read_rules = (Moves-pure, Moves-raise, Moves-lift, Moves-bind, Moves-take_bytes)

pub Moves-u8 : Moves u8
unfolding u8
Moves-u8 = search read_rules

pub Moves-u16 : Moves u16
unfolding u16
Moves-u16 = search read_rules

pub Moves-u24 : Moves u24
unfolding u24
Moves-u24 = search read_rules

pub Moves-u32 : Moves u32
unfolding u32
Moves-u32 = search read_rules

pub Moves-vector8 : Moves vector8
unfolding vector8
Moves-vector8 = search (read_rules, Moves-u8)

pub Moves-vector16 : Moves vector16
unfolding vector16
Moves-vector16 = search (read_rules, Moves-u16)

pub Moves-vector24 : Moves vector24
unfolding vector24
Moves-vector24 = search (read_rules, Moves-u24)

pub ruleset moves_rules = (
  read_rules, Moves-u8, Moves-u16, Moves-u24, Moves-u32, Moves-vector8, Moves-vector16,
  Moves-vector24,
)
