-- ===== src/Tls/Wire/Reads.antt =====
-- What a read returns in front of given bytes: the encodings of RFC 8446 are read back.
use mathlib.Core.List.{append-nil, append_assoc}
use securemailscope.Base.{
  ℕ, ◌/◌, ◌%◌, ◌≤◌, ◌≡◌, refl, sym, ap, ◌∙◌, subst, List, [], ◌∷◌, ◌++◌, length, take, drop,
  length-append, length-drop, take-append_left, drop-append_left, drop-drop, arith, le→not_ltb,
}
use securemailscope.Tls.Wire.{
  lift, Result, be16, be24, ByteReader, Result, ok, lift, Read, pure, unread, remaining, advance,
  take_bytes, u8, u16, u24, vector8, vector16, vector24, then_read, u16_list, ◌>>=◌,
}

-- In front of `bytes`, whatever follows them, the action takes just these and returns `a`.
pub record Reads {ℓ} {A : Type ℓ} (m : Read A) (bytes : List ℕ) (a : A) : Type ℓ where
  pub at :
      (r : ByteReader) (rest : List ℕ)
      → unread r ≡ bytes ++ rest
      → m r ≡ (ok a, advance (length bytes) r)

pub unread-advance :
    (r : ByteReader) (bytes rest : List ℕ)
    → unread r ≡ bytes ++ rest
    → unread (advance (length bytes) r) ≡ rest
unread-advance r bytes rest h =
    sym (drop-drop (length bytes) r.position r.buffer)
    ∙ ap (drop (length bytes)) h
    ∙ drop-append_left bytes rest

pub remaining-unread : (r : ByteReader) → remaining r ≡ length (unread r)
unfolding remaining
remaining-unread r = sym (length-drop r.position r.buffer)

pub Reads-pure {ℓ} : {A : Type ℓ} (a : A) → Reads (pure a) [] a
Reads-pure a = record { at = λ r rest h. ap (λ p. (ok a, record r { position = p })) (omega arith) }

pub Reads-bind {ℓ κ} :
    {A : Type ℓ} {B : Type κ} {m : Read A} (f : A → Read B) {xs ys : List ℕ} {a : A} {b : B}
    → Reads m xs a
    → Reads (f a) ys b
    → Reads (m >>= f) (xs ++ ys) b
Reads-bind f {xs = xs} {ys = ys} {b = b} h k = record {
  at = λ r rest e.
      ap (λ p. then_read p f) (h.at r (ys ++ rest) (e ∙ append_assoc xs ys rest))
      ∙ k.at (advance (length xs) r) rest
          (unread-advance r xs (ys ++ rest) (e ∙ append_assoc xs ys rest))
      ∙ ap (λ p. (ok b, record r { position = p })) (omega (arith, length-append xs ys));
}

-- The last step of a chain takes no more bytes.
pub Reads-bind_last {ℓ κ} :
    {A : Type ℓ} {B : Type κ} {m : Read A} (f : A → Read B) {xs : List ℕ} {a : A} {b : B}
    → Reads m xs a
    → Reads (f a) [] b
    → Reads (m >>= f) xs b
Reads-bind_last {m = m} f {xs = xs} {b = b} h k =
    subst (λ bs. Reads (m >>= f) bs b) (append-nil xs) (Reads-bind f h k)

pub Reads-lift {ℓ} : {A : Type ℓ} (x : Result A) (a : A) → x ≡ ok a → Reads (lift x) [] a
Reads-lift x a e = subst (λ y. Reads (lift y) [] a) (sym e) (Reads-pure a)

pub Reads-take_bytes : (bytes : List ℕ) → Reads (take_bytes (length bytes)) bytes bytes
unfolding take_bytes
Reads-take_bytes bytes = record {
  at = λ r rest h.
      let fits : length bytes ≤ remaining r =
        omega (arith, remaining-unread r, ap length h, length-append bytes rest) in
      rw (le→not_ltb (remaining r) (length bytes) fits) (
        ap (λ d. (ok d, advance (length bytes) r))
          (ap (take (length bytes)) h ∙ take-append_left bytes rest));
}

-- Big-endian fields, and vectors behind their lengths.
abbrev pub encode16 : ℕ → List ℕ
encode16 n = n / 256 ∷ n % 256 ∷ []

abbrev pub encode24 : ℕ → List ℕ
encode24 n = n / 65536 ∷ n / 256 % 256 ∷ n % 256 ∷ []

abbrev pub encode_vector8 : List ℕ → List ℕ
encode_vector8 v = length v ∷ v

abbrev pub encode_vector16 : List ℕ → List ℕ
encode_vector16 v = encode16 (length v) ++ v

abbrev pub encode_vector24 : List ℕ → List ℕ
encode_vector24 v = encode24 (length v) ++ v

abbrev pub encode16_list : List ℕ → List ℕ
encode16_list [] = []
encode16_list (c ∷ cs) = encode16 c ++ encode16_list cs

pub Reads-u8 : (n : ℕ) → Reads u8 (n ∷ []) n
unfolding u8
Reads-u8 n = Reads-bind _ (Reads-take_bytes (n ∷ [])) (Reads-pure n)

pub Reads-u16 : (n : ℕ) → Reads u16 (encode16 n) n
unfolding u16
Reads-u16 n = subst (Reads u16 (encode16 n)) (omega arith) (
    Reads-bind (λ raw. pure (be16 raw)) (Reads-take_bytes (encode16 n))
      (Reads-pure (be16 (encode16 n))))

pub Reads-u24 : (n : ℕ) → Reads u24 (encode24 n) n
unfolding u24
Reads-u24 n = subst (Reads u24 (encode24 n)) (omega arith) (
    Reads-bind (λ raw. pure (be24 raw)) (Reads-take_bytes (encode24 n))
      (Reads-pure (be24 (encode24 n))))

pub Reads-vector8 : (v : List ℕ) → Reads vector8 (encode_vector8 v) v
unfolding vector8
Reads-vector8 v = Reads-bind take_bytes (Reads-u8 (length v)) (Reads-take_bytes v)

pub Reads-vector16 : (v : List ℕ) → Reads vector16 (encode_vector16 v) v
unfolding vector16
Reads-vector16 v = Reads-bind take_bytes (Reads-u16 (length v)) (Reads-take_bytes v)

pub Reads-vector24 : (v : List ℕ) → Reads vector24 (encode_vector24 v) v
unfolding vector24
Reads-vector24 v = Reads-bind take_bytes (Reads-u24 (length v)) (Reads-take_bytes v)

pub u16_list-encode16_list : (cs : List ℕ) → u16_list (encode16_list cs) ≡ ok cs
unfolding u16_list
u16_list-encode16_list [] = refl
u16_list-encode16_list (c ∷ cs) =
    rw (u16_list-encode16_list cs) (ap (λ k. ok (k ∷ cs)) (omega arith))
