-- ===== src/Network/Reassembly/Intervals/Insertion.antt =====
-- Insertion into the store: order is kept, and only the positions of the new interval change.
use securemailscope.Base.{
  ◌<◌, ◌≡◌, refl, sym, ◌∙◌, true, false, List, [], ◌∷◌, none, length, not_ltb→le, ltb→lt, arith,
  Bool-cases, inl, inr,
}
use securemailscope.Base.Int.{ℤ, pos, ◌≤ℤ◌, ◌<ℤ◌, ltb_ℤ, +ℤ_parts}
use securemailscope.Network.Reassembly.Intervals.{Interval, end_of, insert_interval, bisect_left}
use securemailscope.Network.Reassembly.Intervals.Bytes.{
  byte_at, byte_at-cons, IsOrdered, byte_at_covered, byte_at_left, byte_at_right,
}

-- No position of an interval is held by the store.
abbrev pub IsFree : Interval → List Interval → Type 0
IsFree iv ivs = (p : ℤ) → iv.start ≤ℤ p → p <ℤ end_of iv → byte_at ivs p ≡ none

insert_later :
    (iv x : Interval) (xs : List Interval)
    → ltb_ℤ x.start iv.start ≡ true
    → insert_interval iv (x ∷ xs) ≡ x ∷ insert_interval iv xs
unfolding insert_interval bisect_left
insert_later iv x xs h = rw h refl

insert_here :
    (iv x : Interval) (xs : List Interval)
    → ltb_ℤ x.start iv.start ≡ false
    → insert_interval iv (x ∷ xs) ≡ iv ∷ x ∷ xs
unfolding insert_interval bisect_left
insert_here iv x xs h = rw h refl

insert_empty : (iv : Interval) → insert_interval iv [] ≡ iv ∷ []
unfolding insert_interval bisect_left
insert_empty iv = refl

-- A stored interval that starts earlier ends before a free one.
ends_before :
    (iv x : Interval) (xs : List Interval)
    → 0 < length x.bytes
    → 0 < length iv.bytes
    → IsFree iv (x ∷ xs)
    → x.start <ℤ iv.start
    → end_of x ≤ℤ iv.start
ends_before iv x xs hx hi free h = elim (Bool-cases (ltb_ℤ iv.start (end_of x))) [
  | inl t ↦
      let lt : iv.start <ℤ end_of x = ltb→lt _ _ t in
      absurd (
        (byte_at_covered x xs iv.start (omega (arith, h)) lt).1 (
          free iv.start (omega arith)
            (omega (arith, hi, +ℤ_parts iv.start (pos (length iv.bytes))))))
  | inr f ↦ not_ltb→le _ _ f
]

-- A stored interval that does not start earlier starts behind a free one.
starts_behind :
    (iv x : Interval) (xs : List Interval)
    → 0 < length x.bytes
    → IsFree iv (x ∷ xs)
    → iv.start ≤ℤ x.start
    → end_of iv ≤ℤ x.start
starts_behind iv x xs hx free h = elim (Bool-cases (ltb_ℤ x.start (end_of iv))) [
  | inl t ↦
      let lt : x.start <ℤ end_of iv = ltb→lt _ _ t in
      absurd (
        (byte_at_covered x xs x.start (omega arith)
            (omega (arith, hx, +ℤ_parts x.start (pos (length x.bytes))))).1
          (free x.start h lt))
  | inr f ↦ not_ltb→le _ _ f
]

IsFree-tail :
    (iv x : Interval) (xs : List Interval)
    → end_of x ≤ℤ iv.start
    → IsFree iv (x ∷ xs)
    → IsFree iv xs
IsFree-tail iv x xs h free p lo hi =
    sym (byte_at_right x xs p (omega (arith, h, lo))) ∙ free p lo hi

pub insert_interval-IsOrdered :
    (low : ℤ) (iv : Interval) (ivs : List Interval)
    → IsOrdered low ivs
    → low ≤ℤ iv.start
    → 0 < length iv.bytes
    → IsFree iv ivs
    → IsOrdered low (insert_interval iv ivs)
insert_interval-IsOrdered low iv [] o h n free = rw (insert_empty iv) (h, n, tt)
insert_interval-IsOrdered low iv (x ∷ xs) o h n free = elim (Bool-cases (ltb_ℤ x.start iv.start)) [
  | inl t ↦
      let before = ends_before iv x xs o.1 n free (ltb→lt _ _ t) in
      rw (insert_later iv x xs t) (
        o.0,
        o.1,
        insert_interval-IsOrdered (end_of x) iv xs o.2 before n (IsFree-tail iv x xs before free),
      )
  | inr f ↦
      rw (insert_here iv x xs f)
        (h, n, (starts_behind iv x xs o.1 free (not_ltb→le _ _ f), o.1, o.2))
]

-- The order of two intervals that are apart does not show.
swap :
    (iv x : Interval) (zs : List Interval) (p : ℤ)
    → end_of x ≤ℤ iv.start
    → byte_at (x ∷ iv ∷ zs) p ≡ byte_at (iv ∷ x ∷ zs) p
swap iv x zs p h = elim (Bool-cases (ltb_ℤ p iv.start)) [
  | inl t ↦
      let left : (ws : List Interval) → byte_at (iv ∷ ws) p ≡ byte_at ws p =
        λ ws. byte_at_left iv ws p (ltb→lt _ _ t) in
      byte_at-cons x p _ _ (left zs) ∙ sym (left (x ∷ zs))
  | inr f ↦
      let right : (ws : List Interval) → byte_at (x ∷ ws) p ≡ byte_at ws p =
        λ ws. byte_at_right x ws p (omega (arith, h, not_ltb→le _ _ f)) in
      right (iv ∷ zs) ∙ sym (byte_at-cons iv p _ _ (right zs))
]

pub byte_at-insert_interval :
    (low : ℤ) (iv : Interval) (ivs : List Interval) (p : ℤ)
    → IsOrdered low ivs
    → 0 < length iv.bytes
    → IsFree iv ivs
    → byte_at (insert_interval iv ivs) p ≡ byte_at (iv ∷ ivs) p
byte_at-insert_interval low iv [] p o n free = rw (insert_empty iv) refl
byte_at-insert_interval low iv (x ∷ xs) p o n free = elim (Bool-cases (ltb_ℤ x.start iv.start)) [
  | inl t ↦
      let before = ends_before iv x xs o.1 n free (ltb→lt _ _ t) in
      let rest =
        byte_at-insert_interval (end_of x) iv xs p o.2 n (IsFree-tail iv x xs before free) in
      rw (insert_later iv x xs t) (byte_at-cons x p _ _ rest ∙ swap iv x xs p before)
  | inr f ↦ rw (insert_here iv x xs f) refl
]
