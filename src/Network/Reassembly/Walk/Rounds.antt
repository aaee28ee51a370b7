-- ===== src/Network/Reassembly/Walk/Rounds.antt =====
-- The rounds of the loop: each keeps the new ranges to the positions that are not held.
use securemailscope.Base.{
  ℕ, ◌<◌, ◌≡◌, refl, sym, Bool, true, false, List, [], ◌∷◌, length, slice, not_ltb→le, ltb→lt,
  if◌then◌else◌, if_intro, arith, inl, inr, ◌⊎◌, subst,
}
use securemailscope.Base.Int.{ℤ, pos, ◌≤ℤ◌, ◌<ℤ◌, gap, ltb_ℤ, +ℤ_parts, max_ℤ, min_ℤ}
use securemailscope.Evidence.{PacketReference}
use securemailscope.Network.Reassembly.Intervals.{Interval, end_of}
use securemailscope.Network.Reassembly.Intervals.Bytes.{IsOrdered, IsOrdered-weaken}
use securemailscope.Network.Reassembly.Walk.{
  Range, walk, range_in_front, cursor_after, new_ranges-walk,
}
use securemailscope.Network.Reassembly.Walk.Fresh.{
  AllAhead, AllAhead-move, Fresh, intervals, stop, covered-Fresh, front-Fresh, done-Fresh,
  walk_end-Fresh,
}

module _ (sha256 : List ℕ → List ℕ) (ref : PacketReference) (start : ℤ) (bytes : List ℕ) where
  min_facts :
      (a b : ℤ) → (min_ℤ a b ≤ℤ a) × (min_ℤ a b ≤ℤ b) × ((a ≤ℤ min_ℤ a b) ⊎ (b ≤ℤ min_ℤ a b))
  min_facts a b =
      if_intro (λ m. (m ≤ℤ a) × (m ≤ℤ b) × ((a ≤ℤ m) ⊎ (b ≤ℤ m))) (ltb_ℤ b a)
        (λ t. (omega (arith, ltb→lt _ _ t), omega arith, inr (omega arith)))
        (λ f. (omega arith, omega (arith, not_ltb→le _ _ f), inl (omega arith)))

  abbrev after_overlap : ℤ → Interval → ℤ
  after_overlap c iv =
      if ltb_ℤ c (min_ℤ (stop sha256 ref start bytes) (end_of iv))
      then min_ℤ (stop sha256 ref start bytes) (end_of iv)
      else c

  overlap-Fresh :
      (low c : ℤ) (iv : Interval) (ivs ranges : List Interval)
      → IsOrdered low (iv ∷ ivs)
      → iv.start ≤ℤ c
      → c <ℤ end_of iv
      → Fresh sha256 ref start bytes (after_overlap c iv) ivs ranges
      → Fresh sha256 ref start bytes c (iv ∷ ivs) ranges
  overlap-Fresh low c iv ivs ranges o h k f = by_test (ltb_ℤ c m) refl f
    where
      m : ℤ
      m = min_ℤ (stop sha256 ref start bytes) (end_of iv)

      by_test :
          (b : Bool)
          → ltb_ℤ c m ≡ b
          → Fresh sha256 ref start bytes (if b then m else c) ivs ranges
          → Fresh sha256 ref start bytes c (iv ∷ ivs) ranges
      by_test true e f' =
          let facts = min_facts (stop sha256 ref start bytes) (end_of iv) in
          covered-Fresh sha256 ref start bytes low c m iv ivs ranges o h k (ltb→lt _ _ e) facts.0
            facts.1 facts.2 f'
      by_test false e f' =
          let facts = min_facts (stop sha256 ref start bytes) (end_of iv) in
          let le = not_ltb→le _ _ e in
          let past : (stop sha256 ref start bytes) ≤ℤ c = elim facts.2 [
            | inl s ↦ omega (arith, s, le)
            | inr s ↦ absurd (omega (arith, s, le, k))
          ] in
          done-Fresh sha256 ref start bytes c iv ivs ranges past f'

  round-Fresh :
      (low cursor : ℤ) (iv : Interval) (ivs : List Interval) (ranges : List Range)
      → start ≤ℤ cursor
      → IsOrdered low (iv ∷ ivs)
      → AllAhead cursor (stop sha256 ref start bytes) (iv ∷ ivs)
      → Fresh sha256 ref start bytes
          (cursor_after sha256 ref start bytes cursor iv)
          ivs
          (intervals sha256 ref start bytes ranges)
      → Fresh sha256 ref start bytes cursor (iv ∷ ivs) (
          intervals sha256 ref start bytes (range_in_front sha256 ref start bytes cursor iv ranges))
  unfolding range_in_front
  round-Fresh low cursor iv ivs ranges h o a f = by_test (ltb_ℤ cursor iv.start) refl f
    where
      hole : Range
      hole = (cursor, slice bytes (gap cursor start) (gap iv.start start))

      by_test :
          (b : Bool)
          → ltb_ℤ cursor iv.start ≡ b
          → Fresh sha256 ref start bytes
              (after_overlap (if b then iv.start else cursor) iv)
              ivs
              (intervals sha256 ref start bytes ranges)
          → Fresh sha256 ref start bytes cursor
              (iv ∷ ivs)
              (intervals sha256 ref start bytes (if b then hole ∷ ranges else ranges))
      by_test true e f' =
          let size = +ℤ_parts iv.start (pos (length iv.bytes)) in
          front-Fresh sha256 ref start bytes low cursor iv ivs
            (intervals sha256 ref start bytes ranges) h o (ltb→lt _ _ e) a.1
            (overlap-Fresh low iv.start iv ivs (intervals sha256 ref start bytes ranges) o
              (omega arith) (omega (arith, size, o.1)) f')
      by_test false e f' =
          overlap-Fresh low cursor iv ivs (intervals sha256 ref start bytes ranges) o
            (not_ltb→le _ _ e) a.0 f'

  after_facts :
      (cursor : ℤ) (iv : Interval)
      → cursor <ℤ end_of iv
      → 0 < length iv.bytes
      → (cursor ≤ℤ cursor_after sha256 ref start bytes cursor iv)
        × (cursor_after sha256 ref start bytes cursor iv ≤ℤ end_of iv)
  after_facts cursor iv h n =
      let size = +ℤ_parts iv.start (pos (length iv.bytes)) in
      let m = min_ℤ (stop sha256 ref start bytes) (end_of iv) in
      let c = max_ℤ cursor iv.start in
      let facts = min_facts (stop sha256 ref start bytes) (end_of iv) in
      let P : ℤ → Type 0 = λ x. (cursor ≤ℤ x) × (x ≤ℤ end_of iv) in
      let at_c : P c =
        if_intro P (ltb_ℤ cursor iv.start) (λ t. (omega (arith, ltb→lt _ _ t), omega (arith, size)))
          (λ _. (omega arith, omega (arith, h))) in
      if_intro P (ltb_ℤ c m) (λ t. (omega (arith, at_c.0, ltb→lt _ _ t), facts.1)) (λ _. at_c)

  pub walk-Fresh :
      (low cursor : ℤ) (os : List Interval)
      → start ≤ℤ cursor
      → IsOrdered low os
      → AllAhead cursor (stop sha256 ref start bytes) os
      → Fresh sha256 ref start bytes cursor os
          (intervals sha256 ref start bytes (walk sha256 ref start bytes cursor os).new_ranges)
  unfolding walk
  walk-Fresh low cursor [] h o a = walk_end-Fresh sha256 ref start bytes cursor h
  walk-Fresh low cursor (iv ∷ ivs) h o a =
      let after = cursor_after sha256 ref start bytes cursor iv in
      let facts = after_facts cursor iv a.0 o.1 in
      let rest = walk-Fresh (end_of iv) after ivs (omega (arith, h, facts.0)) o.2 (
        AllAhead-move cursor after (stop sha256 ref start bytes) ivs
          (IsOrdered-weaken (end_of iv) after ivs facts.1 o.2) a.2) in
      subst
        (λ ranges.
          Fresh sha256 ref start bytes cursor (iv ∷ ivs) (intervals sha256 ref start bytes ranges))
        (sym (new_ranges-walk sha256 ref start bytes cursor iv ivs))
        (round-Fresh low cursor iv ivs (walk sha256 ref start bytes after ivs).new_ranges h o a
          rest)
