-- ===== src/Network/Reassembly/Directional/Stored.antt =====
-- The limits and the store of `_insert`: what is accepted, recorded and stored.
use securemailscope.Base.{
  ℕ, ◌+◌, ◌≡◌, ap, sym, ◌∙◌, List, [], ◌∷◌, ◌++◌, none, length, ◌⊎◌, map, ltb, not_ltb→le, ltb→lt,
  if_intro, Bool-cases, inl, inr, subst,
}
use securemailscope.Base.Int.{ℤ, ◌≤ℤ◌, ltb_ℤ}
use securemailscope.Evidence.{PacketReference}
use securemailscope.Network.Reassembly.Intervals.{Interval, end_of}
use securemailscope.Network.Reassembly.Intervals.Bytes.{
  byte_at, byte_at-nil, IsOrdered, byte_at_left, byte_at_right,
}
use securemailscope.Network.Reassembly.Intervals.Overlaps.{AllMeet}
use securemailscope.Network.Reassembly.Walk.{Range, interval_of, Walked}
use securemailscope.Network.Reassembly.Walk.Fresh.{AllAhead}
use securemailscope.Network.Reassembly.Limits.{Accepted}
use securemailscope.Network.Reassembly.Limits.Grants.{Recorded, IsAccepted}
use securemailscope.Network.Reassembly.Directional.{DirectionalReassembler, SegmentDisposition}
use securemailscope.Network.Reassembly.Directional.Insert.{
  limit_segments, ranges_bounds, store, insert_all, note_duplicates,
}
use securemailscope.Network.Reassembly.Directional.Overlay.{
  first_of, note_duplicates-IsOrdered, byte_at-note_duplicates, AreApart, insert_all-IsOrdered,
  byte_at-insert_all,
}

Recorded-append_left : (p : ℤ) (xs ys : List (ℤ × ℤ)) → Recorded p xs → Recorded p (xs ++ ys)
Recorded-append_left p [] ys r = absurd r
Recorded-append_left p ((start, end) ∷ xs) ys (inl h) = inl h
Recorded-append_left p ((start, end) ∷ xs) ys (inr r) = inr (Recorded-append_left p xs ys r)

pub Recorded-append_right : (p : ℤ) (xs ys : List (ℤ × ℤ)) → Recorded p ys → Recorded p (xs ++ ys)
Recorded-append_right p [] ys r = r
Recorded-append_right p ((start, end) ∷ xs) ys r = inr (Recorded-append_right p xs ys r)

pub AllMeet-AllAhead :
    (start end : ℤ) (ivs : List Interval) → AllMeet start end ivs → AllAhead start end ivs
AllMeet-AllAhead start end [] m = tt
AllMeet-AllAhead start end (iv ∷ ivs) m = (m.0, m.1, AllMeet-AllAhead start end ivs m.2)

module _ (ref : PacketReference) where
  bounds_or_none :
      (p : ℤ) (ranges : List Range)
      → (byte_at (map (interval_of ref) ranges) p ≡ none) ⊎ Recorded p (ranges_bounds ranges)
  unfolding interval_of ranges_bounds
  bounds_or_none p [] = inl (byte_at-nil p)
  bounds_or_none p ((start, chunk) ∷ ranges) =
      let iv = interval_of ref (start, chunk) in
      let rest = bounds_or_none p ranges in
      elim (Bool-cases (ltb_ℤ p start)) [
        | inl t ↦ elim rest [
          | inl e ↦ inl (byte_at_left iv _ p (ltb→lt _ _ t) ∙ e)
          | inr r ↦ inr (inr r)
        ]
        | inr f ↦ elim (Bool-cases (ltb_ℤ p (end_of iv))) [
          | inl t ↦ inr (inl (not_ltb→le _ _ f, ltb→lt _ _ t))
          | inr g ↦ elim rest [
            | inl e ↦ inl (byte_at_right iv _ p (not_ltb→le _ _ g) ∙ e)
            | inr r ↦ inr (inr r)
          ]
        ]
      ]

  pub limit_segments-IsAccepted :
      (low : ℤ) (max_segments stored : ℕ) (given : List Range) (a : Accepted)
      → IsAccepted ref low given a
      → IsAccepted ref low given (limit_segments max_segments stored a)
  unfolding limit_segments
  limit_segments-IsAccepted low max_segments stored given a i =
      if_intro (IsAccepted ref low given) (ltb max_segments (stored + length a.ranges))
        (λ _. record {
          ordered = tt;
          at = λ p. record {
            part = inl (byte_at-nil p);
            recorded = elim (bounds_or_none p a.ranges) [
              | inl e ↦ elim (i.at p).recorded [
                | inl n ↦ inl n
                | inr (inl same) ↦ inl (sym same ∙ e)
                | inr (inr r) ↦
                    inr (inr (Recorded-append_left p a.dropped (ranges_bounds a.ranges) r))
              ]
              | inr r ↦ inr (inr (Recorded-append_right p a.dropped (ranges_bounds a.ranges) r))
            ];
          };
        })
        (λ _. i)

  pub store-IsOrdered :
      (low start : ℤ) (s : DirectionalReassembler) (w : Walked) (a : Accepted)
      (d : SegmentDisposition)
      → low ≤ℤ start
      → IsOrdered low s.intervals
      → IsOrdered start (map (interval_of ref) a.ranges)
      → AreApart (map (interval_of ref) a.ranges) s.intervals
      → IsOrdered low (store s w a d ref)
  unfolding store
  store-IsOrdered low start s w a d h o o' apart =
      if_intro (λ ivs. IsOrdered low (insert_all (map (interval_of ref) a.ranges) ivs)) _
        (λ _.
          insert_all-IsOrdered low start _ (note_duplicates ref w.touched s.intervals) h
            (note_duplicates-IsOrdered ref w.touched low s.intervals o) o'
            (λ p.
              subst (λ x. (x ≡ none) ⊎ (byte_at (map (interval_of ref) a.ranges) p ≡ none))
                (sym (byte_at-note_duplicates ref w.touched p s.intervals)) (apart p)))
        (λ _. insert_all-IsOrdered low start _ s.intervals h o o' apart)

  pub byte_at-store :
      (low start : ℤ) (s : DirectionalReassembler) (w : Walked) (a : Accepted)
      (d : SegmentDisposition) (p : ℤ)
      → low ≤ℤ start
      → IsOrdered low s.intervals
      → IsOrdered start (map (interval_of ref) a.ranges)
      → AreApart (map (interval_of ref) a.ranges) s.intervals
      → byte_at (store s w a d ref) p
        ≡ first_of (byte_at s.intervals p) (byte_at (map (interval_of ref) a.ranges) p)
  unfolding store
  byte_at-store low start s w a d p h o o' apart =
      let news = map (interval_of ref) a.ranges in
      if_intro
        (λ ivs. byte_at (insert_all news ivs) p ≡ first_of (byte_at s.intervals p) (byte_at news p))
        _
        (λ _.
          byte_at-insert_all low start news (note_duplicates ref w.touched s.intervals) p h
            (note_duplicates-IsOrdered ref w.touched low s.intervals o) o'
            (λ q.
              subst (λ x. (x ≡ none) ⊎ (byte_at news q ≡ none))
                (sym (byte_at-note_duplicates ref w.touched q s.intervals)) (apart q))
          ∙ ap (λ x. first_of x (byte_at news p))
              (byte_at-note_duplicates ref w.touched p s.intervals))
        (λ _. byte_at-insert_all low start news s.intervals p h o o' apart)
