-- ===== src/Network/Reassembly/Directional/Held.antt =====
-- What `_insert` does to the bytes that are held, position by position, whether it returns or raises.
use securemailscope.Base.{
  ℕ, ◌≡◌, ◌≢◌, refl, ap, sym, ◌∙◌, List, ◌++◌, Option, none, some, length, ◌⊎◌, get_elem?, map,
  not_ltb→le, ltb→lt, if_intro, arith, Bool-cases, Option-cases, inl, inr, subst,
}
use securemailscope.Base.Int.{ℤ, pos, ◌+ℤ◌, ◌≤ℤ◌, ◌<ℤ◌, gap, ltb_ℤ, min_ℤ}
use securemailscope.Evidence.{PacketReference}
use securemailscope.Network.Reassembly.Intervals.{overlapping}
use securemailscope.Network.Reassembly.Intervals.Bytes.{
  byte_at, IsOrdered, IsOrdered-weaken, byte_at_below,
}
use securemailscope.Network.Reassembly.Intervals.Overlaps.{overlapping_lem}
use securemailscope.Network.Reassembly.Walk.{interval_of, Walked}
use securemailscope.Network.Reassembly.Walk.Fresh.{Fresh}
use securemailscope.Network.Reassembly.Walk.Rounds.{walk-Fresh}
use securemailscope.Network.Reassembly.Limits.{Accepted}
use securemailscope.Network.Reassembly.Limits.Grants.{
  Recorded, IsAccepted, accept_ranges-IsAccepted,
}
use securemailscope.Network.Reassembly.Directional.{
  DirectionalReassembler, ParsedPacket, SegmentDisposition,
}
use securemailscope.Network.Reassembly.Directional.Insert.{
  insert, insert_whole, insert_raising, walked, granted, admitted, store,
}
use securemailscope.Network.Reassembly.Directional.Overlay.{first_of, AreApart}
use securemailscope.Network.Reassembly.Directional.Stored.{
  AllMeet-AllAhead, limit_segments-IsAccepted, store-IsOrdered, byte_at-store,
}

module _ (sha256 blake2b : List ℕ → List ℕ) (max_segments : ℕ) (s : DirectionalReassembler)
    (start : ℤ) (packet : ParsedPacket) (ref : PacketReference) where
  abbrev after : DirectionalReassembler
  after = insert_whole sha256 blake2b max_segments s start packet ref

  abbrev end : ℤ
  end = start +ℤ pos (length packet.payload)

  -- The new ranges, the accepted ones, as bytes at positions.
  abbrev w : Walked
  w = walked sha256 blake2b max_segments s start packet ref

  abbrev a : Accepted
  a = admitted sha256 blake2b max_segments s w (granted sha256 blake2b max_segments s w).0

  abbrev fresh : ℤ → Option ℕ
  fresh p = byte_at (map (interval_of ref) w.new_ranges) p

  abbrev news : ℤ → Option ℕ
  news p = byte_at (map (interval_of ref) a.ranges) p

  intervals_after :
      (d : SegmentDisposition) × (after.intervals ≡ store s w a d ref)
      × (after.limit_dropped ≡ s.limit_dropped ++ a.dropped)
  unfolding insert_whole
  intervals_after = (_, refl, refl)

  module _ (low : ℤ) (o : IsOrdered low s.intervals) where
    walked-Fresh :
        Fresh sha256 ref start packet.payload start
          (overlapping s.intervals start end)
          (map (interval_of ref) w.new_ranges)
    unfolding walked
    walked-Fresh =
        let found = overlapping_lem low start end s.intervals o in
        walk-Fresh sha256 ref start packet.payload low start (overlapping s.intervals start end)
          (omega arith) found.0 (AllMeet-AllAhead start end _ found.1)

    same_byte :
        (p : ℤ)
        → start ≤ℤ p
        → p <ℤ end
        → byte_at (overlapping s.intervals start end) p ≡ byte_at s.intervals p
    same_byte = (overlapping_lem low start end s.intervals o).2

    admitted-IsAccepted : IsAccepted ref start w.new_ranges a
    unfolding admitted
    admitted-IsAccepted =
        limit_segments-IsAccepted ref start _ _ _ _
          (accept_ranges-IsAccepted ref start _ _ walked-Fresh.ordered)

    inside : (p : ℤ) → (fresh p ≡ none) ⊎ ((start ≤ℤ p) × (p <ℤ end))
    inside p = elim (Bool-cases (ltb_ℤ p start)) [
      | inl t ↦ inl (byte_at_below start p _ walked-Fresh.ordered (ltb→lt _ _ t))
      | inr f ↦ elim (Bool-cases (ltb_ℤ p end)) [
        | inl t ↦ inr (not_ltb→le _ _ f, ltb→lt _ _ t)
        | inr g ↦ inl (walked-Fresh.outside p (not_ltb→le _ _ g))
      ]
    ]

    fresh_old : (p : ℤ) → byte_at s.intervals p ≢ none → fresh p ≡ none
    fresh_old p n = elim (inside p) [
      | inl e ↦ e
      | inr (lo, hi) ↦ (walked-Fresh.within p lo hi).old_byte (λ e. n (sym (same_byte p lo hi) ∙ e))
    ]

    fresh_new :
        (p : ℤ)
        → start ≤ℤ p
        → p <ℤ end
        → byte_at s.intervals p ≡ none
        → fresh p ≡ get_elem? packet.payload (gap p start)
    fresh_new p lo hi e = (walked-Fresh.within p lo hi).new_byte (same_byte p lo hi ∙ e)

    apart : AreApart (map (interval_of ref) a.ranges) s.intervals
    apart p = elim (Option-cases (byte_at s.intervals p)) [
      | inl e ↦ inl e
      | inr (b, e) ↦ inr (elim (admitted-IsAccepted.at p).part [
        | inl n ↦ n
        | inr same ↦ same ∙ fresh_old p (λ n. absurd (cc (n, e)))
      ])
    ]

    at_after :
        (low' : ℤ)
        → low' ≤ℤ low
        → low' ≤ℤ start
        → (p : ℤ) → byte_at after.intervals p ≡ first_of (byte_at s.intervals p) (news p)
    at_after low' h k p =
        let (d, e, _) = intervals_after in
        subst (λ ivs. byte_at ivs p ≡ first_of (byte_at s.intervals p) (news p)) (sym e)
          (byte_at-store ref low' start s w a d p k (IsOrdered-weaken low low' s.intervals h o)
            admitted-IsAccepted.ordered apart)

  abbrev lowest : ℤ → ℤ
  lowest low = min_ℤ low start

  lowest_facts : (low : ℤ) → (lowest low ≤ℤ low) × (lowest low ≤ℤ start)
  lowest_facts low =
      if_intro (λ m. (m ≤ℤ low) × (m ≤ℤ start)) (ltb_ℤ start low)
        (λ t. (omega (arith, ltb→lt _ _ t), omega arith))
        (λ f. (omega arith, omega (arith, not_ltb→le _ _ f)))

  at_insert :
      (low : ℤ)
      → IsOrdered low s.intervals
      → (p : ℤ) → byte_at after.intervals p ≡ first_of (byte_at s.intervals p) (news p)
  at_insert low o p = let f = lowest_facts low in at_after low o (lowest low) f.0 f.1 p

  -- The store of a reassembler stays a sequence of non-empty intervals that are in order and do not
  -- meet, if it was one before the payload is inserted.
  pub insert-IsOrdered :
      (low : ℤ)
      → IsOrdered low s.intervals
      → low ≤ℤ start
      → IsOrdered low (insert sha256 blake2b max_segments s start packet ref).intervals
  unfolding insert insert_raising
  insert-IsOrdered low o h =
      let (d, e, _) = intervals_after in
      if_intro (λ (t : DirectionalReassembler). IsOrdered low t.intervals) w.raised (λ _. o)
        (λ _. subst (IsOrdered low) (sym e) (
          store-IsOrdered ref low start s w a d h o (admitted-IsAccepted low o).ordered
            (apart low o)))

  -- A byte that is held stays what it is, whatever a later packet claims for its position: the
  -- first observation wins.
  pub insert-first_observed_wins :
      (low p : ℤ) (b : ℕ)
      → IsOrdered low s.intervals
      → byte_at s.intervals p ≡ some b
      → byte_at (insert sha256 blake2b max_segments s start packet ref).intervals p ≡ some b
  unfolding insert insert_raising
  insert-first_observed_wins low p b o e =
      if_intro (λ (t : DirectionalReassembler). byte_at t.intervals p ≡ some b) w.raised (λ _. e)
        (λ _. at_insert low o p ∙ ap (λ x. first_of x (news p)) e)

  abbrev NewByte : ℤ → DirectionalReassembler → Type 0
  NewByte p t =
      (byte_at t.intervals p ≡ none)
      ⊎ ((start ≤ℤ p)
          × (p <ℤ end)
          × (byte_at t.intervals p ≡ get_elem? packet.payload (gap p start)))

  -- At a position that held no byte before, there is none afterwards either, or the position is
  -- one of the packet's and the byte is the payload's byte for it.
  pub insert-new_byte :
      (low p : ℤ)
      → IsOrdered low s.intervals
      → byte_at s.intervals p ≡ none
      → (byte_at (insert sha256 blake2b max_segments s start packet ref).intervals p ≡ none)
        ⊎ ((start ≤ℤ p)
            × (p <ℤ (start +ℤ pos (length packet.payload)))
            × (byte_at (insert sha256 blake2b max_segments s start packet ref).intervals p
                ≡ get_elem? packet.payload (gap p start)))
  unfolding insert insert_raising
  insert-new_byte low p o e =
      if_intro (NewByte p) w.raised (λ _. inl e)
        (λ _.
          let at : byte_at after.intervals p ≡ news p =
            at_insert low o p ∙ ap (λ x. first_of x (news p)) e in
          elim ((admitted-IsAccepted low o).at p).part [
            | inl n ↦ inl (at ∙ n)
            | inr same ↦ elim (inside low o p) [
              | inl n ↦ inl (at ∙ same ∙ n)
              | inr (lo, hi) ↦ inr (lo, hi, at ∙ same ∙ fresh_new low o p lo hi e)
            ]
          ])

  abbrev NotLost : ℤ → DirectionalReassembler → Type 0
  NotLost p t = (byte_at t.intervals p ≢ none) ⊎ Recorded p t.limit_dropped
