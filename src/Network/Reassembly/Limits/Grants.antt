-- ===== src/Network/Reassembly/Limits/Grants.antt =====
-- The accepted ranges are a part of the new ones, and what is left out is recorded.
use securemailscope.Base.{
  ℕ, ◌+◌, ◌-◌, ◌<◌, ◌≡◌, refl, sym, ◌∙◌, List, [], ◌∷◌, Option, none, length, ◌⊎◌, take, map, ltb,
  leb, not_ltb→le, ltb→lt, not_leb→lt, if_intro, arith, Bool-cases, inl, inr, min, length-take,
}
use securemailscope.Base.Int.{ℤ, pos, ◌+ℤ◌, ◌≤ℤ◌, ◌<ℤ◌, gap, ltb_ℤ, +ℤ_parts, pos_part, neg_part}
use securemailscope.Evidence.{PacketReference}
use securemailscope.Network.Reassembly.Intervals.{Interval, end_of}
use securemailscope.Network.Reassembly.Intervals.Bytes.{
  byte_at, byte_at-nil, IsOrdered, IsOrdered-weaken, byte_at_covered, byte_at_left, byte_at_right,
  byte_at_below, get_elem?-take,
}
use securemailscope.Network.Reassembly.Walk.{Range, interval_of}
use securemailscope.Network.Reassembly.Limits.{accept_ranges, Accepted}

-- A position lies in one of the recorded ranges.
abbrev pub Recorded : ℤ → List (ℤ × ℤ) → Type 0
Recorded p [] = ⊥
Recorded p ((start, end) ∷ ranges) = ((start ≤ℤ p) × (p <ℤ end)) ⊎ Recorded p ranges

-- A position outside of a range, or inside.
pub place : (start end p : ℤ) → (p <ℤ start) ⊎ (end ≤ℤ p) ⊎ ((start ≤ℤ p) × (p <ℤ end))
place start end p = elim (Bool-cases (ltb_ℤ p start)) [
  | inl t ↦ inl (ltb→lt _ _ t)
  | inr f ↦ elim (Bool-cases (ltb_ℤ p end)) [
    | inl t ↦ inr (inr (not_ltb→le _ _ f, ltb→lt _ _ t))
    | inr g ↦ inr (inl (not_ltb→le _ _ g))
  ]
]

module _ (ref : PacketReference) where
  abbrev held : List Range → ℤ → Option ℕ
  held ranges p = byte_at (map (interval_of ref) ranges) p

  -- At one position: what is accepted is unchanged, and what is not is recorded.
  pub record AcceptedAt (given : List Range) (a : Accepted) (p : ℤ) : Type 0 where
    pub part : (held a.ranges p ≡ none) ⊎ (held a.ranges p ≡ held given p)
    pub recorded : (held given p ≡ none) ⊎ (held a.ranges p ≡ held given p) ⊎ Recorded p a.dropped

  pub record IsAccepted (low : ℤ) (given : List Range) (a : Accepted) : Type 0 where
    pub ordered : IsOrdered low (map (interval_of ref) a.ranges)
    pub at : (p : ℤ) → AcceptedAt given a p

  abbrev end_range : ℤ → List ℕ → ℤ
  end_range start chunk = start +ℤ pos (length chunk)

  moved :
      (rest given : List Range) (later a : Accepted) (p : ℤ)
      → held a.ranges p ≡ held later.ranges p
      → held given p ≡ held rest p
      → (Recorded p later.dropped → Recorded p a.dropped)
      → AcceptedAt rest later p
      → AcceptedAt given a p
  moved rest given later a p e e' more at = record {
    part = elim at.part [ inl n ↦ inl (e ∙ n) | inr k ↦ inr (e ∙ k ∙ sym e') ];
    recorded = elim at.recorded [
      | inl n ↦ inl (e' ∙ n)
      | inr (inl k) ↦ inr (inl (e ∙ k ∙ sym e'))
      | inr (inr r) ↦ inr (inr (more r))
    ];
  }

  outside :
      (start : ℤ) (chunk : List ℕ) (ivs : List Interval) (p : ℤ)
      → (p <ℤ start) ⊎ (end_range start chunk ≤ℤ p)
      → byte_at (interval_of ref (start, chunk) ∷ ivs) p ≡ byte_at ivs p
  unfolding interval_of
  outside start chunk ivs p (inl h) = byte_at_left (interval_of ref (start, chunk)) ivs p h
  outside start chunk ivs p (inr h) = byte_at_right (interval_of ref (start, chunk)) ivs p h

  refused :
      (low start : ℤ) (chunk : List ℕ) (rest : List Range) (later : Accepted)
      → low ≤ℤ start
      → IsAccepted (end_range start chunk) rest later
      → IsAccepted low
          ((start, chunk) ∷ rest)
          (record later { dropped = (start, end_range start chunk) ∷ later.dropped })
  unfolding interval_of
  refused low start chunk rest later h a = record {
    ordered =
        IsOrdered-weaken (end_range start chunk) low (map (interval_of ref) later.ranges)
          (omega (arith, h, +ℤ_parts start (pos (length chunk)))) a.ordered;
    at = λ p. elim (place start (end_range start chunk) p) [
      | inl k ↦ moved rest _ later _ p refl (outside start chunk _ p (inl k)) inr (a.at p)
      | inr (inl k) ↦ moved rest _ later _ p refl (outside start chunk _ p (inr k)) inr (a.at p)
      | inr (inr (lo, hi)) ↦ record {
        part = inl (byte_at_below (end_range start chunk) p _ a.ordered hi);
        recorded = inr (inr (inl (lo, hi)));
      }
    ];
  }

  whole :
      (low start : ℤ) (chunk : List ℕ) (rest : List Range) (later : Accepted)
      → low ≤ℤ start
      → 0 < length chunk
      → IsAccepted (end_range start chunk) rest later
      → IsAccepted low ((start, chunk) ∷ rest) (record {
        ranges = (start, chunk) ∷ later.ranges;
        dropped = later.dropped;
        stored_new = length chunk + later.stored_new;
      })
  unfolding interval_of
  whole low start chunk rest later h n a = record {
    ordered = (h, n, a.ordered);
    at = λ p. elim (place start (end_range start chunk) p) [
      | inl k ↦
          moved rest _ later _ p (outside start chunk _ p (inl k)) (outside start chunk _ p (inl k))
            (λ r. r) (a.at p)
      | inr (inl k) ↦
          moved rest _ later _ p (outside start chunk _ p (inr k)) (outside start chunk _ p (inr k))
            (λ r. r) (a.at p)
      | inr (inr (lo, hi)) ↦
          let same : held ((start, chunk) ∷ later.ranges) p ≡ held ((start, chunk) ∷ rest) p =
            (byte_at_covered range _ p lo hi).0 ∙ sym (byte_at_covered range _ p lo hi).0 in
          record { part = inr same; recorded = inr (inl same) }
    ];
  }
    where
      range : Interval
      range = interval_of ref (start, chunk)

  clipped :
      (low start : ℤ) (chunk : List ℕ) (rest : List Range) (later : Accepted) (granted : ℕ)
      → low ≤ℤ start
      → 0 < granted
      → granted < length chunk
      → IsAccepted (end_range start chunk) rest later
      → IsAccepted low ((start, chunk) ∷ rest) (record {
        ranges = (start, take granted chunk) ∷ later.ranges;
        dropped = (start +ℤ pos granted, end_range start chunk) ∷ later.dropped;
        stored_new = granted + later.stored_new;
      })
  unfolding interval_of
  clipped low start chunk rest later granted h n lt a = record {
    ordered = (
      h,
      omega (arith, size, n),
      IsOrdered-weaken (end_range start chunk) (end_of kept) _
          (omega (arith, size, ends, whole_ends, lt)) a.ordered,
    );
    at = λ p. elim (place start (end_range start chunk) p) [
      | inl k ↦
          moved rest _ later _ p (outside start (take granted chunk) _ p (inl k))
            (outside start chunk _ p (inl k)) inr (a.at p)
      | inr (inl k) ↦
          moved rest _ later _ p
            (outside start (take granted chunk) _ p
              (inr (omega (arith, size, ends, whole_ends, lt, k))))
            (outside start chunk _ p (inr k)) inr (a.at p)
      | inr (inr (lo, hi)) ↦ elim (place start (start +ℤ pos granted) p) [
        | inl k ↦ absurd (omega (arith, k, lo))
        | inr (inl k) ↦ record {
          part = inl (
              byte_at_right kept _ p (omega (arith, size, ends, cut, k))
              ∙ byte_at_below (end_range start chunk) p _ a.ordered hi);
          recorded = inr (inr (inl (k, hi)));
        }
        | inr (inr (lo', hi')) ↦
            let same : held ((start, take granted chunk) ∷ later.ranges) p
                ≡ held ((start, chunk) ∷ rest) p =
              (byte_at_covered kept _ p lo (omega (arith, size, ends, cut, hi', lt))).0
              ∙ get_elem?-take granted (gap p start) chunk (omega (arith, cut, lo, hi'))
              ∙ sym (byte_at_covered (interval_of ref (start, chunk)) _ p lo hi).0 in
            record { part = inr same; recorded = inr (inl same) }
      ]
    ];
  }
    where
      kept : Interval
      kept = interval_of ref (start, take granted chunk)

      size : length (take granted chunk) ≡ min granted (length chunk)
      size = length-take granted chunk

      ends :
          pos_part (end_of kept) + neg_part start
          ≡ neg_part (end_of kept) + pos_part start + length (take granted chunk)
      ends = omega (arith, +ℤ_parts start (pos (length (take granted chunk))))

      whole_ends :
          pos_part (end_range start chunk) + neg_part start
          ≡ neg_part (end_range start chunk) + pos_part start + length chunk
      whole_ends = omega (arith, +ℤ_parts start (pos (length chunk)))

      cut :
          pos_part (start +ℤ pos granted) + neg_part start
          ≡ neg_part (start +ℤ pos granted) + pos_part start + granted
      cut = omega (arith, +ℤ_parts start (pos granted))

  pub accept_ranges-IsAccepted :
      (low : ℤ) (granted : ℕ) (ranges : List Range)
      → IsOrdered low (map (interval_of ref) ranges)
      → IsAccepted low ranges (accept_ranges granted ranges)
  unfolding accept_ranges interval_of
  accept_ranges-IsAccepted low granted [] o = record {
    ordered = tt;
    at = λ p. record { part = inl (byte_at-nil p); recorded = inl (byte_at-nil p) };
  }
  accept_ranges-IsAccepted low granted ((start, chunk) ∷ rest) o =
      let left = granted - length chunk in
      let a = accept_ranges-IsAccepted (end_range start chunk) left rest o.2 in
      let later = accept_ranges left rest in
      if_intro (IsAccepted low ((start, chunk) ∷ rest)) (leb granted 0)
        (λ _. refused low start chunk rest later o.0 a)
        (λ f.
          if_intro (IsAccepted low ((start, chunk) ∷ rest)) (ltb granted (length chunk))
            (λ t.
              clipped low start chunk rest later granted o.0 (not_leb→lt _ _ f) (ltb→lt _ _ t) a)
            (λ _. whole low start chunk rest later o.0 o.1 a))
