-- ===== src/Network/Reassembly/Intervals/Overlaps.antt =====
-- `_overlapping` finds every stored byte of the range, by bisection.
use securemailscope.Base.{
  ℕ, zero, suc, ◌-◌, ◌<◌, ◌≡◌, refl, sym, ◌∙◌, List, [], ◌∷◌, Option, none, some, length, get_elem?,
  drop, ltb, lt→ltb, not_ltb→le, ltb→lt, if◌then◌else◌, if_intro, arith, subst,
}
use securemailscope.Base.Int.{ℤ, pos, ◌≤ℤ◌, ◌<ℤ◌, ltb_ℤ, +ℤ_parts}
use securemailscope.Network.Reassembly.Intervals.{
  Interval, end_of, bisect_left, step_back, first_index, scan, overlapping,
}
use securemailscope.Network.Reassembly.Intervals.Bytes.{
  byte_at, byte_at-nil, byte_at-cons, IsOrdered, IsOrdered-weaken, byte_at_left, byte_at_right,
  byte_at_below,
}

-- Intervals that meet the range from `start` to `end`.
abbrev pub AllMeet : ℤ → ℤ → List Interval → Type 0
AllMeet start end [] = Unit
AllMeet start end (iv ∷ ivs) = (start <ℤ end_of iv) × (iv.start <ℤ end) × AllMeet start end ivs

end_later : (iv : Interval) → iv.start ≤ℤ end_of iv
end_later iv = omega (arith, +ℤ_parts iv.start (pos (length iv.bytes)))

pub IsOrdered-drop :
    (low : ℤ) (k : ℕ) (ivs : List Interval) → IsOrdered low ivs → IsOrdered low (drop k ivs)
IsOrdered-drop low zero ivs o = o
IsOrdered-drop low (suc k) [] o = tt
IsOrdered-drop low (suc k) (iv ∷ ivs) o =
    IsOrdered-drop low k ivs
      (IsOrdered-weaken (end_of iv) low ivs (omega (arith, o.0, end_later iv)) o.2)

scan-IsOrdered :
    (low start end : ℤ) (ivs : List Interval)
    → IsOrdered low ivs
    → IsOrdered low (scan ivs start end)
unfolding scan
scan-IsOrdered low start end [] o = tt
scan-IsOrdered low start end (iv ∷ ivs) o =
    let rest = scan-IsOrdered (end_of iv) start end ivs o.2 in
    if_intro (IsOrdered low) (ltb_ℤ iv.start end)
      (λ _.
        if_intro (IsOrdered low) (ltb_ℤ start (end_of iv)) (λ _. (o.0, o.1, rest))
          (λ _.
            IsOrdered-weaken (end_of iv) low (scan ivs start end) (omega (arith, o.0, end_later iv))
              rest))
      (λ _. tt)

scan-AllMeet : (start end : ℤ) (ivs : List Interval) → AllMeet start end (scan ivs start end)
unfolding scan
scan-AllMeet start end [] = tt
scan-AllMeet start end (iv ∷ ivs) =
    let rest = scan-AllMeet start end ivs in
    if_intro (AllMeet start end) (ltb_ℤ iv.start end)
      (λ t.
        if_intro (AllMeet start end) (ltb_ℤ start (end_of iv))
          (λ u. (ltb→lt _ _ u, ltb→lt _ _ t, rest)) (λ _. rest))
      (λ _. tt)

byte_at-scan :
    (low start end p : ℤ) (ivs : List Interval)
    → IsOrdered low ivs
    → start ≤ℤ p
    → p <ℤ end
    → byte_at (scan ivs start end) p ≡ byte_at ivs p
unfolding scan
byte_at-scan low start end p [] o lo hi = refl
byte_at-scan low start end p (iv ∷ ivs) o lo hi =
    let rest = byte_at-scan (end_of iv) start end p ivs o.2 lo hi in
    let P : List Interval → Type 0 = λ xs. byte_at xs p ≡ byte_at (iv ∷ ivs) p in
    if_intro P (ltb_ℤ iv.start end)
      (λ _.
        if_intro P (ltb_ℤ start (end_of iv)) (λ _. byte_at-cons iv p _ _ rest)
          (λ f. rest ∙ sym (byte_at_right iv ivs p (omega (arith, not_ltb→le _ _ f, lo)))))
      (λ f.
        let before : p <ℤ iv.start = omega (arith, not_ltb→le _ _ f, hi) in
        byte_at-nil p
        ∙ sym (
            byte_at_left iv ivs p before
            ∙ byte_at_below (end_of iv) p ivs o.2 (omega (arith, before, end_later iv))))

bisect_tail :
    (start : ℤ) (j : ℕ) (iv : Interval) (ivs : List Interval)
    → suc j < bisect_left (iv ∷ ivs) start
    → j < bisect_left ivs start
unfolding bisect_left
bisect_tail start j iv ivs h = ground arith

bisect_head :
    (start : ℤ) (iv : Interval) (ivs : List Interval)
    → 0 < bisect_left (iv ∷ ivs) start
    → iv.start <ℤ start
unfolding bisect_left
bisect_head start iv ivs h = ground arith

-- Fewer than all intervals that start in front of a position end in front of it.
byte_at-drop :
    (low start p : ℤ) (j : ℕ) (ivs : List Interval)
    → IsOrdered low ivs
    → start ≤ℤ p
    → j < bisect_left ivs start
    → byte_at (drop j ivs) p ≡ byte_at ivs p
unfolding bisect_left
byte_at-drop low start p zero ivs o lo h = refl
byte_at-drop low start p (suc j) [] o lo h = refl
byte_at-drop low start p (suc j) (iv ∷ []) o lo h = absurd (ground arith)
byte_at-drop low start p (suc j) (iv ∷ x ∷ xs) o lo h =
    let h' = bisect_tail start j iv (x ∷ xs) h in
    let before = bisect_head start x xs (omega (arith, h')) in
    byte_at-drop (end_of iv) start p j (x ∷ xs) o.2 lo h'
    ∙ sym (byte_at_right iv (x ∷ xs) p (omega (arith, o.2.0, before, lo)))

-- One interval more, if it ends in front of the position.
byte_at-drop_one :
    (p : ℤ) (j : ℕ) (ivs : List Interval)
    → ((iv : Interval) → get_elem? ivs j ≡ some iv → end_of iv ≤ℤ p)
    → byte_at (drop (suc j) ivs) p ≡ byte_at (drop j ivs) p
byte_at-drop_one p zero [] h = refl
byte_at-drop_one p zero (iv ∷ ivs) h = sym (byte_at_right iv ivs p (h iv refl))
byte_at-drop_one p (suc j) [] h = refl
byte_at-drop_one p (suc j) (iv ∷ ivs) h = byte_at-drop_one p j ivs h

byte_at-step_back :
    (low start p : ℤ) (j : ℕ) (ivs : List Interval)
    → IsOrdered low ivs
    → start ≤ℤ p
    → j < bisect_left ivs start
    → (found : Option Interval) → get_elem? ivs j ≡ found
    → byte_at (drop (step_back (suc j) found start) ivs) p ≡ byte_at ivs p
unfolding step_back
byte_at-step_back low start p j ivs o lo h none e =
    byte_at-drop_one p j ivs (λ iv e'. absurd (cc (e, e'))) ∙ byte_at-drop low start p j ivs o lo h
byte_at-step_back low start p j ivs o lo h (some iv) e =
    if_intro (λ k. byte_at (drop k ivs) p ≡ byte_at ivs p) (ltb_ℤ start (end_of iv))
      (λ _. let e' : suc j - 1 ≡ j = omega arith in rw e' (byte_at-drop low start p j ivs o lo h))
      (λ f.
        let past : end_of iv ≤ℤ p = omega (arith, not_ltb→le _ _ f, lo) in
        byte_at-drop_one p j ivs
          (λ iv' e'. let same : iv ≡ iv' = cc (e, e') in subst (λ w. end_of w ≤ℤ p) same past)
        ∙ byte_at-drop low start p j ivs o lo h)

byte_at-first_index :
    (low start p : ℤ) (ivs : List Interval)
    → IsOrdered low ivs
    → start ≤ℤ p
    → byte_at (drop (first_index ivs start) ivs) p ≡ byte_at ivs p
unfolding first_index
byte_at-first_index low start p ivs o lo = by_index (bisect_left ivs start) refl
  where
    by_index :
        (k : ℕ)
        → bisect_left ivs start ≡ k
        → byte_at (drop (if ltb 0 k then step_back k (get_elem? ivs (k - 1)) start else k) ivs) p
          ≡ byte_at ivs p
    by_index zero e = refl
    by_index (suc j) e =
        let at_j : suc j - 1 ≡ j = omega arith in
        rw (lt→ltb 0 (suc j) (omega arith), at_j)
          (byte_at-step_back low start p j ivs o lo (omega (arith, e)) (get_elem? ivs j) refl)

-- The overlapping intervals hold what the store holds in the range, in order, and each of them
-- meets the range.
pub overlapping_lem :
    (low start end : ℤ) (ivs : List Interval)
    → IsOrdered low ivs
    → IsOrdered low (overlapping ivs start end)
      × AllMeet start end (overlapping ivs start end)
      × ((p : ℤ) → start ≤ℤ p → p <ℤ end → byte_at (overlapping ivs start end) p ≡ byte_at ivs p)
unfolding overlapping
overlapping_lem low start end ivs o =
    let k = first_index ivs start in
    let d = IsOrdered-drop low k ivs o in
    (
      scan-IsOrdered low start end (drop k ivs) d,
      scan-AllMeet start end (drop k ivs),
      λ p lo hi.
          byte_at-scan low start end p (drop k ivs) d lo hi
          ∙ byte_at-first_index low start p ivs o lo,
    )
