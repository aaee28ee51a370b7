-- ===== src/Network/Reassembly/Walk/Fresh.antt =====
-- The new ranges are exactly the positions of the packet that the store does not hold.
use securemailscope.Base.{
  ℕ, zero, suc, ◌+◌, ◌-◌, ◌≡◌, ◌≢◌, refl, ap, sym, ◌∙◌, List, [], ◌∷◌, none, length, get_elem?,
  drop, slice, map, not_ltb→le, ltb→lt, if_intro, arith, Bool-cases, inl, inr, length-take,
  length-drop, min, ◌⊎◌,
}
use securemailscope.Base.Int.{ℤ, pos, ◌+ℤ◌, ◌≤ℤ◌, ◌<ℤ◌, gap, ltb_ℤ, +ℤ_parts, pos_part, neg_part}
use securemailscope.Evidence.{PacketReference}
use securemailscope.Network.Reassembly.Intervals.{Interval, end_of}
use securemailscope.Network.Reassembly.Intervals.Bytes.{
  byte_at, byte_at-nil, IsOrdered, IsOrdered-weaken, byte_at_covered, byte_at_left, byte_at_right,
  byte_at_below, get_elem?-take,
}
use securemailscope.Network.Reassembly.Walk.{Range, interval_of, walk_end}

get_elem?-drop : (n i : ℕ) (xs : List ℕ) → get_elem? (drop n xs) i ≡ get_elem? xs (n + i)
get_elem?-drop zero i xs = ap (get_elem? xs) (omega arith)
get_elem?-drop (suc n) i [] = refl
get_elem?-drop (suc n) i (x ∷ xs) =
    let e : suc n + i ≡ suc (n + i) = omega arith in rw e (get_elem?-drop n i xs)

-- Overlapping intervals that start before `end` and reach past the cursor.
abbrev pub AllAhead : ℤ → ℤ → List Interval → Type 0
AllAhead cursor end [] = Unit
AllAhead cursor end (iv ∷ ivs) = (cursor <ℤ end_of iv) × (iv.start <ℤ end) × AllAhead cursor end ivs

pub AllAhead-move :
    (cursor cursor' end : ℤ) (ivs : List Interval)
    → IsOrdered cursor' ivs
    → AllAhead cursor end ivs
    → AllAhead cursor' end ivs
AllAhead-move cursor cursor' end [] o a = tt
AllAhead-move cursor cursor' end (iv ∷ ivs) o a =
    let e = +ℤ_parts iv.start (pos (length iv.bytes)) in
    (
      omega (arith, e, o.0, o.1),
      a.1,
      AllAhead-move cursor cursor' end ivs
          (IsOrdered-weaken (end_of iv) cursor' ivs (omega (arith, e, o.0, o.1)) o.2) a.2,
    )

module _ (sha256 : List ℕ → List ℕ) (ref : PacketReference) (start : ℤ) (bytes : List ℕ) where
  abbrev pub stop : ℤ
  stop = start +ℤ pos (length bytes)

  abbrev pub intervals : List Range → List Interval
  intervals ranges = map (interval_of ref) ranges

  -- What the ranges hold at one position, given what the store holds there.
  pub record FreshAt (os ranges : List Interval) (p : ℤ) : Type 0 where
    pub new_byte : byte_at os p ≡ none → byte_at ranges p ≡ get_elem? bytes (gap p start)
    pub old_byte : byte_at os p ≢ none → byte_at ranges p ≡ none

  pub record Fresh (cursor : ℤ) (os ranges : List Interval) : Type 0 where
    pub ordered : IsOrdered cursor ranges
    pub within : (p : ℤ) → cursor ≤ℤ p → p <ℤ stop → FreshAt os ranges p
    pub outside : (p : ℤ) → stop ≤ℤ p → byte_at ranges p ≡ none

  pub walk_end-Fresh :
      (cursor : ℤ)
      → start ≤ℤ cursor
      → Fresh cursor [] (intervals (walk_end sha256 ref start bytes cursor).new_ranges)
  unfolding walk_end interval_of
  walk_end-Fresh cursor h =
      if_intro (λ ranges. Fresh cursor [] (intervals ranges)) (ltb_ℤ cursor stop)
        (λ t. some_bytes (ltb→lt _ _ t)) (λ f. no_bytes (not_ltb→le _ _ f))
    where
      rest : List ℕ
      rest = drop (gap cursor start) bytes

      size : length rest ≡ length bytes - gap cursor start
      size = length-drop (gap cursor start) bytes

      sum : (pos_part stop + neg_part start ≡ neg_part stop + pos_part start + length bytes)
      sum = omega (arith, +ℤ_parts start (pos (length bytes)))

      range : Interval
      range = interval_of ref (cursor, rest)

      ends :
          pos_part (end_of range) + neg_part cursor
          ≡ neg_part (end_of range) + pos_part cursor + length rest
      ends = omega (arith, +ℤ_parts cursor (pos (length rest)))

      some_bytes : cursor <ℤ stop → Fresh cursor [] (range ∷ [])
      some_bytes k = record {
        ordered = (omega arith, omega (arith, size, sum, h, k), tt);
        within = λ p lo hi. record {
          new_byte = λ _.
              (byte_at_covered range [] p lo (omega (arith, size, sum, ends, h, k, hi))).0
              ∙ get_elem?-drop (gap cursor start) (gap p cursor) bytes
              ∙ ap (get_elem? bytes) (omega (arith, h, lo));
          old_byte = λ n. absurd (n (byte_at-nil p));
        };
        outside = λ p k'.
            byte_at_right range [] p (omega (arith, size, sum, ends, h, k, k')) ∙ byte_at-nil p;
      }

      no_bytes : stop ≤ℤ cursor → Fresh cursor [] []
      no_bytes k = record {
        ordered = tt;
        within = λ p lo hi. absurd (omega (arith, k, lo, hi));
        outside = λ p _. byte_at-nil p;
      }

  -- An interval at the cursor: its positions are old, and the loop goes on behind it.
  pub covered-Fresh :
      (low cursor after : ℤ) (iv : Interval) (ivs ranges : List Interval)
      → IsOrdered low (iv ∷ ivs)
      → iv.start ≤ℤ cursor
      → cursor <ℤ end_of iv
      → cursor <ℤ after
      → after ≤ℤ stop
      → after ≤ℤ end_of iv
      → (stop ≤ℤ after) ⊎ (end_of iv ≤ℤ after)
      → Fresh after ivs ranges
      → Fresh cursor (iv ∷ ivs) ranges
  covered-Fresh low cursor after iv ivs ranges o h k lt to_stop to_end last f = record {
    ordered = IsOrdered-weaken after cursor ranges (omega (arith, lt)) f.ordered;
    within = λ p lo hi. elim (Bool-cases (ltb_ℤ p after)) [
      | inl t ↦
          let before : p <ℤ after = ltb→lt _ _ t in
          record {
            new_byte = λ e. absurd (
                (byte_at_covered iv ivs p (omega (arith, h, lo)) (omega (arith, before, to_end))).1
                  e);
            old_byte = λ _. byte_at_below after p ranges f.ordered before;
          }
      | inr g ↦
          let behind : after ≤ℤ p = not_ltb→le _ _ g in
          let past : end_of iv ≤ℤ p = elim last [
            | inl s ↦ absurd (omega (arith, s, hi, behind))
            | inr e ↦ omega (arith, e, behind)
          ] in
          let right = byte_at_right iv ivs p past in
          let at = f.within p behind hi in
          record {
            new_byte = λ e. at.new_byte (sym right ∙ e);
            old_byte = λ n. at.old_byte (λ e. n (right ∙ e));
          }
    ];
    outside = f.outside;
  }

  -- A hole in front of an interval: its positions are new.
  pub front-Fresh :
      (low cursor : ℤ) (iv : Interval) (ivs ranges : List Interval)
      → start ≤ℤ cursor
      → IsOrdered low (iv ∷ ivs)
      → cursor <ℤ iv.start
      → iv.start <ℤ stop
      → Fresh iv.start (iv ∷ ivs) ranges
      → Fresh cursor
          (iv ∷ ivs)
          (interval_of ref (cursor, slice bytes (gap cursor start) (gap iv.start start)) ∷ ranges)
  unfolding interval_of
  front-Fresh low cursor iv ivs ranges h o lt end f = record {
    ordered = (
      omega arith,
      omega (arith, size, sum, h, lt, end),
      IsOrdered-weaken iv.start (end_of range) ranges (omega (arith, size, sum, ends, h, lt, end))
          f.ordered,
    );
    within = λ p lo hi. elim (Bool-cases (ltb_ℤ p iv.start)) [
      | inl t ↦
          let before : p <ℤ iv.start = ltb→lt _ _ t in
          record {
            new_byte = λ _.
                (byte_at_covered range ranges p lo
                  (omega (arith, size, sum, ends, h, lt, end, before))).0
                ∙ get_elem?-take width (gap p cursor) (drop (gap cursor start) bytes)
                    (omega (arith, h, lo, before))
                ∙ get_elem?-drop (gap cursor start) (gap p cursor) bytes
                ∙ ap (get_elem? bytes) (omega (arith, h, lo));
            old_byte = λ n. absurd (
                n (
                  byte_at_left iv ivs p before
                  ∙ byte_at_below (end_of iv) p ivs o.2
                      (omega (arith, before, +ℤ_parts iv.start (pos (length iv.bytes))))));
          }
      | inr g ↦
          let behind : iv.start ≤ℤ p = not_ltb→le _ _ g in
          let right =
            byte_at_right range ranges p (omega (arith, size, sum, ends, h, lt, end, behind)) in
          let at = f.within p behind hi in
          record { new_byte = λ e. right ∙ at.new_byte e; old_byte = λ n. right ∙ at.old_byte n }
    ];
    outside = λ p k.
        byte_at_right range ranges p (omega (arith, size, sum, ends, h, lt, end, k))
        ∙ f.outside p k;
  }
    where
      width : ℕ
      width = gap iv.start start - gap cursor start

      chunk : List ℕ
      chunk = slice bytes (gap cursor start) (gap iv.start start)

      size : length chunk ≡ min width (length bytes - gap cursor start)
      size =
          length-take width (drop (gap cursor start) bytes)
          ∙ ap (min width) (length-drop (gap cursor start) bytes)

      sum : (pos_part stop + neg_part start ≡ neg_part stop + pos_part start + length bytes)
      sum = omega (arith, +ℤ_parts start (pos (length bytes)))

      range : Interval
      range = interval_of ref (cursor, chunk)

      ends :
          pos_part (end_of range) + neg_part cursor
          ≡ neg_part (end_of range) + pos_part cursor + length chunk
      ends = omega (arith, +ℤ_parts cursor (pos (length chunk)))

  -- Nothing of the packet is left at the cursor.
  pub done-Fresh :
      (cursor : ℤ) (iv : Interval) (ivs ranges : List Interval)
      → stop ≤ℤ cursor
      → Fresh cursor ivs ranges
      → Fresh cursor (iv ∷ ivs) ranges
  done-Fresh cursor iv ivs ranges h f = record {
    ordered = f.ordered;
    within = λ p lo hi. absurd (omega (arith, h, lo, hi));
    outside = f.outside;
  }
