-- ===== src/Tls/Wire.antt =====
-- tls/wire.py: the bounded reader over one buffer. A method that may raise TLSParseError is an
-- action: it returns its result beside the reader, which a raising method may have moved.
pub mod Moves
pub mod Reads
pub mod Takes
use securemailscope.Base.{
  ℕ, ◌+◌, ◌-◌, ◌*◌, List, [], ◌∷◌, length, get_or, take, drop, ltb, if◌then◌else◌,
}

-- TLSParseError; the message of a short read keeps its numbers.
pub data TlsParseError : Type 0 where
  short : ℕ → ℕ → ℕ → TlsParseError
  odd_length : TlsParseError

pub data Result {ℓ} (A : Type ℓ) : Type ℓ where
  ok : A → Result A
  err : TlsParseError → Result A

pub record ByteReader : Type 0 where
  pub buffer : List ℕ
  pub position : ℕ

-- ByteReader(data)
abbrev pub reader : List ℕ → ByteReader
reader bytes = record { buffer = bytes; position = 0 }

abbrev pub Read {ℓ} : Type ℓ → Type ℓ
Read A = ByteReader → Result A × ByteReader

abbrev pub then_read {ℓ κ} :
    {A : Type ℓ} {B : Type κ} → Result A × ByteReader → (A → Read B) → Result B × ByteReader
then_read (ok a, r) f = f a r
then_read (err e, r) f = (err e, r)

infixl 5 ◌>>=◌ ◌>>◌
abbrev pub ◌>>=◌ {ℓ κ} : {A : Type ℓ} {B : Type κ} → Read A → (A → Read B) → Read B
◌>>=◌ m f r = then_read (m r) f

abbrev pub ◌>>◌ {ℓ κ} : {A : Type ℓ} {B : Type κ} → Read A → Read B → Read B
m >> k = m >>= λ _. k

abbrev pub pure {ℓ} : {A : Type ℓ} → A → Read A
pure a r = (ok a, r)

abbrev pub raise {ℓ} : {A : Type ℓ} → TlsParseError → Read A
raise e r = (err e, r)

abbrev pub lift {ℓ} : {A : Type ℓ} → Result A → Read A
lift (ok a) = pure a
lift (err e) = raise e

-- The bytes from the position on.
abbrev pub unread : ByteReader → List ℕ
unread r = drop r.position r.buffer

-- `_pos` never passes the end, so the subtraction is exact.
unfoldable pub remaining : ByteReader → ℕ
remaining r = length r.buffer - r.position

abbrev pub advance : ℕ → ByteReader → ByteReader
advance n r = record r { position = r.position + n }

-- No caller passes a negative count: each is a constant or a length that was read.
unfoldable pub take_bytes : ℕ → Read (List ℕ)
unfolding remaining
take_bytes count r =
    if ltb (remaining r) count
    then (err (short count r.position (remaining r)), r)
    else (ok (take count (unread r)), advance count r)

-- The numbers of a big-endian field. A byte is below 256, so `(a << 8) | b` is a sum.
abbrev pub be16 : List ℕ → ℕ
be16 raw = get_or raw 0 0 * 256 + get_or raw 1 0

abbrev pub be24 : List ℕ → ℕ
be24 raw = get_or raw 0 0 * 65536 + get_or raw 1 0 * 256 + get_or raw 2 0

abbrev pub be32 : List ℕ → ℕ
be32 raw =
    get_or raw 0 0 * 16777216 + get_or raw 1 0 * 65536 + get_or raw 2 0 * 256 + get_or raw 3 0

unfoldable pub u8 : Read ℕ
u8 = do raw ← take_bytes 1; pure (get_or raw 0 0)

unfoldable pub u16 : Read ℕ
u16 = do raw ← take_bytes 2; pure (be16 raw)

unfoldable pub u24 : Read ℕ
u24 = do raw ← take_bytes 3; pure (be24 raw)

unfoldable pub u32 : Read ℕ
u32 = do raw ← take_bytes 4; pure (be32 raw)

unfoldable pub vector8 : Read (List ℕ)
vector8 = do n ← u8; take_bytes n

unfoldable pub vector16 : Read (List ℕ)
vector16 = do n ← u16; take_bytes n

unfoldable pub vector24 : Read (List ℕ)
vector24 = do n ← u24; take_bytes n

cons_code : ℕ → Result (List ℕ) → Result (List ℕ)
cons_code c (ok cs) = ok (c ∷ cs)
cons_code c (err e) = err e

-- `len(data) % 2` raises before any pair is read; the recursion meets an odd byte at the end.
unfoldable pub u16_list : List ℕ → Result (List ℕ)
unfolding cons_code
u16_list [] = ok []
u16_list (a ∷ []) = err odd_length
u16_list (a ∷ b ∷ rest) = cons_code (a * 256 + b) (u16_list rest)
