-- ===== src/Network/Reassembly/Directional/Joins.antt =====
-- A run of bytes joined with the interval that starts at its end.
use securemailscope.Base.{
  ℕ, zero, suc, ◌+◌, ◌<◌, ◌≡◌, refl, ap, sym, ◌∙◌, true, false, List, [], ◌∷◌, ◌++◌, Option, none,
  length, ◌⊎◌, get_elem?, le→not_ltb, lt→ltb, not_ltb→le, ltb→lt, leb→le, le→leb, not_leb→lt,
  if◌then◌else◌, arith, Bool-cases, inl, inr, length-append,
}
use securemailscope.Base.Int.{ℤ, pos, ◌+ℤ◌, ◌≤ℤ◌, ◌<ℤ◌, gap, ltb_ℤ, leb_ℤ, +ℤ_parts}
use securemailscope.Network.Reassembly.Intervals.{Interval, end_of}
use securemailscope.Network.Reassembly.Intervals.Bytes.{
  covers, byte_at, byte_at_covered, byte_at_left, byte_at_right,
}
use securemailscope.Network.Reassembly.Directional.{eq_ℤ}
use securemailscope.Network.Reassembly.Directional.Results.{Run}

-- The byte that the runs hold at a position.
unfoldable pub run_byte : List Run → ℤ → Option ℕ
run_byte [] p = none
run_byte ((start, bytes) ∷ runs) p =
    if covers start (length bytes) p then get_elem? bytes (gap p start) else run_byte runs p

-- Runs that are not empty, in order, with a hole between one and the next.
abbrev pub AreApart : ℤ → List Run → Type 0
AreApart low [] = Unit
AreApart low ((start, bytes) ∷ runs) =
    (low <ℤ start) × (0 < length bytes) × AreApart (start +ℤ pos (length bytes)) runs

get_elem?-append_left :
    (xs ys : List ℕ) (i : ℕ) → i < length xs → get_elem? (xs ++ ys) i ≡ get_elem? xs i
get_elem?-append_left [] ys i h = absurd (omega arith)
get_elem?-append_left (x ∷ xs) ys zero h = refl
get_elem?-append_left (x ∷ xs) ys (suc i) h = get_elem?-append_left xs ys i (omega arith)

get_elem?-append_right :
    (xs ys : List ℕ) (i : ℕ) → get_elem? (xs ++ ys) (length xs + i) ≡ get_elem? ys i
get_elem?-append_right [] ys i = ap (get_elem? ys) (omega arith)
get_elem?-append_right (x ∷ xs) ys i =
    let e : length (x ∷ xs) + i ≡ suc (length xs + i) = omega arith in
    rw e (get_elem?-append_right xs ys i)

run_byte-cons :
    (start : ℤ) (bytes : List ℕ) (runs : List Run) (p : ℤ)
    → ((start ≤ℤ p)
        × (p <ℤ (start +ℤ pos (length bytes)))
        × (run_byte ((start, bytes) ∷ runs) p ≡ get_elem? bytes (gap p start)))
      ⊎ (((p <ℤ start) ⊎ ((start +ℤ pos (length bytes)) ≤ℤ p))
          × (run_byte ((start, bytes) ∷ runs) p ≡ run_byte runs p))
unfolding run_byte
run_byte-cons start bytes runs p = elim (Bool-cases (leb_ℤ start p)) [
  | inl t ↦ elim (Bool-cases (ltb_ℤ p (start +ℤ pos (length bytes)))) [
    | inl u ↦ inl (leb→le _ _ t, ltb→lt _ _ u, rw (t, u) refl)
    | inr g ↦ inr (inr (not_ltb→le _ _ g), rw (t, g) refl)
  ]
  | inr f ↦ inr (inl (not_leb→lt _ _ f), rw f refl)
]

pub eq_ℤ→parts : (a b : ℤ) → eq_ℤ a b ≡ true → (a ≤ℤ b) × (b ≤ℤ a)
unfolding eq_ℤ
eq_ℤ→parts a b h = (ground arith, ground arith)

pub not_eq_ℤ→lt : (a b : ℤ) → eq_ℤ a b ≡ false → a ≤ℤ b → a <ℤ b
unfolding eq_ℤ
not_eq_ℤ→lt a b h k = ground arith

-- The byte at a position of an open run and the intervals behind it.
abbrev pub held_by : ℤ → List ℕ → List Interval → ℤ → Option ℕ
held_by start bytes ivs p =
    if covers start (length bytes) p then get_elem? bytes (gap p start) else byte_at ivs p

held_by-in :
    (start : ℤ) (bytes : List ℕ) (ivs : List Interval) (p : ℤ)
    → start ≤ℤ p
    → p <ℤ (start +ℤ pos (length bytes))
    → held_by start bytes ivs p ≡ get_elem? bytes (gap p start)
held_by-in start bytes ivs p lo hi = rw (le→leb _ _ lo, lt→ltb _ _ hi) refl

held_by-left :
    (start : ℤ) (bytes : List ℕ) (ivs : List Interval) (p : ℤ)
    → p <ℤ start
    → held_by start bytes ivs p ≡ byte_at ivs p
held_by-left start bytes ivs p h = let e : leb_ℤ start p ≡ false = ground arith in rw e refl

held_by-right :
    (start : ℤ) (bytes : List ℕ) (ivs : List Interval) (p : ℤ)
    → (start +ℤ pos (length bytes)) ≤ℤ p
    → held_by start bytes ivs p ≡ byte_at ivs p
held_by-right start bytes ivs p h =
    let lo : start ≤ℤ p = omega (arith, h, +ℤ_parts start (pos (length bytes))) in
    rw (le→leb _ _ lo, le→not_ltb _ _ h) refl

module _ (start : ℤ) (bytes : List ℕ) (iv : Interval) (ivs : List Interval) where
  abbrev end : ℤ
  end = start +ℤ pos (length bytes)

  abbrev joined : List ℕ
  joined = bytes ++ iv.bytes

  pub held_by-join :
      (p : ℤ)
      → end ≤ℤ iv.start
      → iv.start ≤ℤ end
      → held_by start joined ivs p ≡ held_by start bytes (iv ∷ ivs) p
  held_by-join p h k =
      let size = length-append bytes iv.bytes in
      let first = +ℤ_parts start (pos (length bytes)) in
      let second = +ℤ_parts iv.start (pos (length iv.bytes)) in
      let both = +ℤ_parts start (pos (length joined)) in
      elim (Bool-cases (ltb_ℤ p start)) [
        | inl t ↦
            let before = ltb→lt _ _ t in
            held_by-left start joined ivs p before
            ∙ sym (
                held_by-left start bytes (iv ∷ ivs) p before
                ∙ byte_at_left iv ivs p (omega (arith, before, k, h, first)))
        | inr f ↦
            let lo = not_ltb→le _ _ f in
            elim (Bool-cases (ltb_ℤ p end)) [
              | inl t ↦
                  let hi = ltb→lt _ _ t in
                  held_by-in start joined ivs p lo (omega (arith, size, first, both, hi))
                  ∙ get_elem?-append_left bytes iv.bytes (gap p start)
                      (omega (arith, first, lo, hi))
                  ∙ sym (held_by-in start bytes (iv ∷ ivs) p lo hi)
              | inr g ↦ let past = not_ltb→le _ _ g in held_by-join_behind p h k past
            ]
      ]
    where
      held_by-join_behind :
          (p : ℤ)
          → end ≤ℤ iv.start
          → iv.start ≤ℤ end
          → end ≤ℤ p
          → held_by start joined ivs p ≡ held_by start bytes (iv ∷ ivs) p
      held_by-join_behind p h k past =
          let size = length-append bytes iv.bytes in
          let first = +ℤ_parts start (pos (length bytes)) in
          let second = +ℤ_parts iv.start (pos (length iv.bytes)) in
          let both = +ℤ_parts start (pos (length joined)) in
          elim (Bool-cases (ltb_ℤ p (end_of iv))) [
            | inl t ↦
                let hi = ltb→lt _ _ t in
                let at : gap p start ≡ length bytes + gap p iv.start =
                  omega (arith, first, past, h, k) in
                held_by-in start joined ivs p (omega (arith, first, past))
                  (omega (arith, size, first, second, both, h, k, hi))
                ∙ ap (get_elem? joined) at
                ∙ get_elem?-append_right bytes iv.bytes (gap p iv.start)
                ∙ sym (
                    held_by-right start bytes (iv ∷ ivs) p past
                    ∙ (byte_at_covered iv ivs p (omega (arith, past, k)) hi).0)
            | inr g ↦
                let out = not_ltb→le _ _ g in
                held_by-right start joined ivs p
                  (omega (arith, size, first, second, both, h, k, out))
                ∙ sym (held_by-right start bytes (iv ∷ ivs) p past ∙ byte_at_right iv ivs p out)
          ]
