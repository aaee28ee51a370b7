-- ===== src/Protocols/Cursor/Lines.antt =====
-- A line is a stretch of what a run has left: its bytes, its end and what consuming it takes.
use securemailscope.Base.{
  ℕ, zero, suc, ◌+◌, ◌-◌, ◌≤◌, ◌<◌, ◌≡◌, refl, ap, sym, ◌∙◌, subst, true, false, ◌&&◌, ◌==◌, List,
  [], ◌∷◌, ◌++◌, Option, none, some, length, length-take, length-drop, take, drop, get_or, All, ltb,
  min, if_intro, ltb→lt, not_ltb→le, ==_iff, arith, take-all,
}
use mathlib.Core.List.{append-nil, append_assoc}
use securemailscope.Protocols.Buffer.{DirectionalBuffer}
use securemailscope.Protocols.Cursor.{
  StreamLine, Taken, Place, index_of, make, oversized, unterminated, ends_in_cr, terminated,
  taken_at, take_line, resume,
}

-- No byte of the list is a line feed.
abbrev pub NoNewline : List ℕ → Type 0
NoNewline xs = All (λ c. (c == 10) ≡ false) xs

NoNewline-take : (n : ℕ) (xs : List ℕ) → NoNewline xs → NoNewline (take n xs)
NoNewline-take zero xs h = tt
NoNewline-take (suc n) [] h = tt
NoNewline-take (suc n) (x ∷ xs) h = (h.0, NoNewline-take n xs h.1)

take-take : (m n : ℕ) (xs : List ℕ) → m ≤ n → take m (take n xs) ≡ take m xs
take-take zero n xs h = refl
take-take (suc m) zero xs h = absurd (omega arith)
take-take (suc m) (suc n) [] h = refl
take-take (suc m) (suc n) (x ∷ xs) h = ap (◌∷◌ x) (take-take m n xs (omega arith))

get_or-take : (n i : ℕ) (xs : List ℕ) → i < n → get_or (take n xs) i 0 ≡ get_or xs i 0
get_or-take zero i xs h = absurd (omega arith)
get_or-take (suc n) i [] h = refl
get_or-take (suc n) zero (x ∷ xs) h = refl
get_or-take (suc n) (suc i) (x ∷ xs) h = get_or-take n i xs (omega arith)

take_next :
    (n : ℕ) (xs : List ℕ) → n < length xs → take (suc n) xs ≡ take n xs ++ (get_or xs n 0 ∷ [])
take_next n [] h = absurd (omega arith)
take_next zero (x ∷ xs) h = refl
take_next (suc n) (x ∷ xs) h = ap (◌∷◌ x) (take_next n xs (omega arith))

lf_lem :
    (n : ℕ) (xs : List ℕ)
    → n < length xs
    → get_or xs n 0 ≡ 10
    → take n xs ++ (10 ∷ []) ≡ take (suc n) xs
lf_lem n xs h e = ap (λ c. take n xs ++ (c ∷ [])) (sym e) ∙ sym (take_next n xs h)

-- A carriage return in front of the line feed.
cr_lem :
    (n : ℕ) (xs : List ℕ)
    → n < length xs
    → get_or xs n 0 ≡ 10
    → (ltb 0 n && get_or xs (n - 1) 0 == 13) ≡ true
    → take (n - 1) xs ++ (13 ∷ 10 ∷ []) ≡ take (suc n) xs
cr_lem zero xs h e t = absurd (ground arith)
cr_lem (suc m) xs h e t =
    let at_m : suc m - 1 ≡ m = omega arith in
    let cr : get_or xs m 0 ≡ 13 = subst (λ k. get_or xs k 0 ≡ 13) at_m (ground arith) in
    ap (λ k. take k xs ++ (13 ∷ 10 ∷ [])) at_m
    ∙ sym (append_assoc (take m xs) (13 ∷ []) (10 ∷ []))
    ∙ ap (λ c. (take m xs ++ (c ∷ [])) ++ (10 ∷ [])) (sym cr)
    ∙ ap (λ ys. ys ++ (10 ∷ [])) (sym (take_next m xs (omega (arith, h))))
    ∙ lf_lem (suc m) xs h e

-- The first byte that is looked for stands at the index, and none in front of it.
abbrev FoundAt : List ℕ → Option ℕ → Type 0
FoundAt xs none = NoNewline xs
FoundAt xs (some n) = (n < length xs) × (get_or xs n 0 ≡ 10) × NoNewline (take n xs)

index_of-FoundAt : (xs : List ℕ) → FoundAt xs (index_of 10 xs)
unfolding index_of
index_of-FoundAt [] = tt
index_of-FoundAt (x ∷ xs) =
    if_intro (FoundAt (x ∷ xs)) (x == 10) (λ t. (omega arith, (==_iff x 10).0 t, tt))
      (λ f. later f (index_of 10 xs) (index_of-FoundAt xs))
  where
    later :
        (x == 10) ≡ false
        → (o : Option ℕ) → FoundAt xs o
        → FoundAt (x ∷ xs) (elim o [ none ↦ none | some i ↦ some (suc i) ])
    later f none h = (f, h)
    later f (some i) h = (omega (arith, h.0), h.1, (f, h.2))

-- What a line and its bytes to consume are, against what the run has left.
pub record IsTaken (start : ℕ) (tail : List ℕ) (t : Taken) : Type 0 where
  pub starts : t.line.start_offset ≡ start
  pub bytes : t.line.content ++ t.line.terminator ≡ take (t.line.end_offset - start) tail
  pub ends : (start ≤ t.line.end_offset) × (t.line.end_offset ≤ start + t.consume)
  pub consumes : (0 < t.consume) × (t.consume ≤ length tail)
  pub one_line : NoNewline t.line.content

module _ (b : DirectionalBuffer) (max_line_bytes : ℕ) (at : Place) (tail : List ℕ)
    (some_left : 0 < length tail) where
  resume_lem :
      max_line_bytes ≤ length tail
      → (o : Option ℕ) → FoundAt (drop max_line_bytes tail) o
      → (max_line_bytes ≤ resume b max_line_bytes tail o)
        × (0 < resume b max_line_bytes tail o)
        × (resume b max_line_bytes tail o ≤ length tail)
  unfolding resume
  resume_lem h none f = (h, some_left, omega arith)
  resume_lem h (some i) f =
      (omega arith, omega arith, omega (arith, f.0, length-drop max_line_bytes tail, h))

  oversized-IsTaken :
      max_line_bytes < length tail
      → NoNewline (take (max_line_bytes + 1) tail)
      → IsTaken at.start_offset tail (oversized b max_line_bytes at tail)
  unfolding oversized make
  oversized-IsTaken h f =
      let r =
        resume_lem (omega (arith, h)) (index_of 10 (drop max_line_bytes tail))
          (index_of-FoundAt (drop max_line_bytes tail)) in
      let width : at.start_offset + max_line_bytes - at.start_offset ≡ max_line_bytes =
        omega arith in
      record {
        starts = refl;
        bytes = append-nil _ ∙ ap (λ n. take n tail) (sym width);
        ends = (omega arith, omega (arith, r.0));
        consumes = (r.1, r.2);
        one_line =
            subst NoNewline (take-take max_line_bytes (max_line_bytes + 1) tail (omega arith))
              (NoNewline-take max_line_bytes (take (max_line_bytes + 1) tail) f);
      }

  unterminated-IsTaken :
      length tail ≤ max_line_bytes
      → NoNewline (take (max_line_bytes + 1) tail)
      → IsTaken at.start_offset tail (unterminated b max_line_bytes at tail)
  unfolding unterminated make
  unterminated-IsTaken h f =
      let width : length tail ≤ at.start_offset + length tail - at.start_offset = omega arith in
      record {
        starts = refl;
        bytes = append-nil tail ∙ sym (take-all _ tail width);
        ends = (omega arith, omega arith);
        consumes = (some_left, omega arith);
        one_line = subst NoNewline (take-all (max_line_bytes + 1) tail (omega (arith, h))) f;
      }

  terminated-IsTaken :
      (n : ℕ)
      → n < length tail
      → get_or tail n 0 ≡ 10
      → NoNewline (take n tail)
      → IsTaken at.start_offset tail (terminated b max_line_bytes at tail n)
  unfolding terminated make ends_in_cr
  terminated-IsTaken n h e f =
      let width : at.start_offset + n + 1 - at.start_offset ≡ suc n = omega arith in
      let w = (terminated b max_line_bytes at tail n).warnings in
      let P : StreamLine → Type 0 = λ line.
        IsTaken at.start_offset tail (record { line = line; consume = n + 1; warnings = w }) in
      if_intro P (ltb 0 n && get_or tail (n - 1) 0 == 13)
        (λ t. record {
          starts = refl;
          bytes = cr_lem n tail h e t ∙ ap (λ k. take k tail) (sym width);
          ends = (omega arith, omega arith);
          consumes = (omega arith, omega (arith, h));
          one_line =
              subst NoNewline (take-take (n - 1) n tail (omega arith))
                (NoNewline-take (n - 1) (take n tail) f);
        })
        (λ _. record {
          starts = refl;
          bytes = lf_lem n tail h e ∙ ap (λ k. take k tail) (sym width);
          ends = (omega arith, omega arith);
          consumes = (omega arith, omega (arith, h));
          one_line = f;
        })

  pub take_line-IsTaken : IsTaken at.start_offset tail (take_line b max_line_bytes at tail)
  unfolding take_line taken_at
  take_line-IsTaken =
      by_index (index_of 10 (take (max_line_bytes + 1) tail))
        (index_of-FoundAt (take (max_line_bytes + 1) tail))
    where
      size : length (take (max_line_bytes + 1) tail) ≡ min (max_line_bytes + 1) (length tail)
      size = length-take (max_line_bytes + 1) tail

      by_index :
          (o : Option ℕ)
          → FoundAt (take (max_line_bytes + 1) tail) o
          → IsTaken at.start_offset tail (taken_at b max_line_bytes at tail o)
      by_index none g =
          if_intro (IsTaken at.start_offset tail) (ltb max_line_bytes (length tail))
            (λ t. oversized-IsTaken (ltb→lt _ _ t) g)
            (λ u. unterminated-IsTaken (not_ltb→le _ _ u) g)
      by_index (some n) g =
          terminated-IsTaken n (omega (arith, g.0, size))
            (sym (get_or-take (max_line_bytes + 1) n tail (omega (arith, g.0, size))) ∙ g.1)
            (subst NoNewline (take-take n (max_line_bytes + 1) tail (omega (arith, g.0, size))) g.2)
