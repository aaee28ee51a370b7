-- ===== src/Network/Reassembly/Directional/Gaps.antt =====
-- The gaps are the positions that no stored interval holds.
use securemailscope.Base.{
  ℕ, ◌+◌, ◌<◌, ◌≡◌, ◌≢◌, refl, sym, ◌∙◌, Bool, true, false, ◌&&◌, List, [], ◌∷◌, Option, none, some,
  length, ◌⊎◌, ltb, lt→ltb, ltb→lt, if◌then◌else◌, if_intro, arith, inl, inr, subst,
}
use securemailscope.Base.Int.{ℤ, pos, ◌+ℤ◌, ◌-ℤ◌, ◌≤ℤ◌, ◌<ℤ◌, gap, ltb_ℤ, max_ℤ, +ℤ_parts, -ℤ_parts}
use securemailscope.Network.Reassembly.Intervals.{Interval, end_of}
use securemailscope.Network.Reassembly.Intervals.Bytes.{
  byte_at, byte_at-nil, IsOrdered, byte_at_left, byte_at_right, byte_at_below,
}
use securemailscope.Network.Reassembly.Directional.{DirectionalReassembler}
use securemailscope.Network.Reassembly.Directional.Results.{
  ReassemblyGap, gap_between, gaps_from, last_gap, add_gap, build_gaps, gaps_of, claimed,
}

-- A position lies in one of the gaps, whose offsets count from the base.
abbrev pub InGaps : ℤ → ℤ → List ReassemblyGap → Type 0
InGaps base p [] = ⊥
InGaps base p (g ∷ gs) =
    ((g.stream_offset ≤ℤ (p -ℤ base)) × ((p -ℤ base) <ℤ (g.stream_offset +ℤ pos g.length)))
    ⊎ InGaps base p gs

module _ (s : DirectionalReassembler) (max_gaps : ℕ) (base claimed_end : ℤ) where
  -- One gap covers what is between its ends.
  gap_between-covers :
      (start end p : ℤ) (previous following : Option Interval)
      → start <ℤ end
      → ((gap_between s start end base previous following).stream_offset ≤ℤ (p -ℤ base))
        × ((p -ℤ base) <ℤ (
            (gap_between s start end base previous following).stream_offset +ℤ pos (gap end start)))
      → (start ≤ℤ p) × (p <ℤ end)
  unfolding gap_between
  gap_between-covers start end p previous following h (lo, hi) =
      let a = -ℤ_parts start base in
      let b = -ℤ_parts p base in
      let c = +ℤ_parts (start -ℤ base) (pos (gap end start)) in
      (omega (arith, a, b, c, lo, h), omega (arith, a, b, c, hi, h))

  pub covers-gap_between :
      (start end p : ℤ) (previous following : Option Interval)
      → start ≤ℤ p
      → p <ℤ end
      → ((gap_between s start end base previous following).stream_offset ≤ℤ (p -ℤ base))
        × ((p -ℤ base) <ℤ (
            (gap_between s start end base previous following).stream_offset +ℤ pos (gap end start)))
  unfolding gap_between
  covers-gap_between start end p previous following lo hi =
      let a = -ℤ_parts start base in
      let b = -ℤ_parts p base in
      let c = +ℤ_parts (start -ℤ base) (pos (gap end start)) in
      (omega (arith, a, b, c, lo), omega (arith, a, b, c, lo, hi))

  pub gap_length :
      (start end : ℤ) (previous following : Option Interval)
      → (gap_between s start end base previous following).length ≡ gap end start
  unfolding gap_between
  gap_length start end previous following = refl

  abbrev pub Within : ℤ → ℤ → ℤ → Option Interval → Option Interval → ℕ → Type 0
  Within start end p previous following n =
      ((gap_between s start end base previous following).stream_offset ≤ℤ (p -ℤ base))
      × ((p -ℤ base) <ℤ ((gap_between s start end base previous following).stream_offset +ℤ pos n))

  first_true : (a b : Bool) → (a && b) ≡ true → a ≡ true
  first_true a b h = ground arith

  pub max_end :
      (low cursor : ℤ) (iv : Interval)
      → cursor ≤ℤ iv.start
      → 0 < length iv.bytes
      → max_ℤ cursor (end_of iv) ≡ end_of iv
  max_end low cursor iv h n =
      let e : ltb_ℤ cursor (end_of iv) ≡ true =
        lt→ltb _ _ (omega (arith, h, n, +ℤ_parts iv.start (pos (length iv.bytes)))) in
      rw e refl

  add_gap_sound :
      (cursor p : ℤ) (previous : Option Interval) (iv : Interval) (rest : List ReassemblyGap)
      → InGaps base p (add_gap s max_gaps base claimed_end cursor previous iv rest)
      → ((cursor ≤ℤ p) × (p <ℤ iv.start)) ⊎ InGaps base p rest
  unfolding add_gap
  add_gap_sound cursor p previous iv rest =
      if_intro (λ gs. InGaps base p gs → ((cursor ≤ℤ p) × (p <ℤ iv.start)) ⊎ InGaps base p rest)
        (ltb_ℤ cursor iv.start)
        (λ t g. elim g [
          | inl h ↦ inl (
              gap_between-covers cursor iv.start p previous (some iv) (ltb→lt _ _ t) (
                subst (Within cursor iv.start p previous (some iv))
                  (gap_length cursor iv.start previous (some iv)) h))
          | inr r ↦ inr r
        ])
        (λ _ g. inr g)

  cut_sound :
      (p : ℤ) (b : Bool) (rest : List ReassemblyGap)
      → InGaps base p (if b then [] else rest)
      → InGaps base p rest
  cut_sound p true rest g = absurd g
  cut_sound p false rest g = g

  pub move_on :
      (cursor : ℤ) (iv : Interval) (ivs : List Interval)
      → IsOrdered cursor (iv ∷ ivs)
      → IsOrdered (max_ℤ cursor (end_of iv)) ivs
  move_on cursor iv ivs o =
      subst (λ c. IsOrdered c ivs) (sym (max_end cursor cursor iv o.0 o.1)) o.2

  pub gaps_from_sound :
      (count : ℕ) (cursor p : ℤ) (previous : Option Interval) (ivs : List Interval)
      → IsOrdered cursor ivs
      → InGaps base p (gaps_from s max_gaps base claimed_end count cursor previous ivs)
      → (cursor ≤ℤ p) × (byte_at ivs p ≡ none)
  unfolding gaps_from last_gap
  gaps_from_sound count cursor p previous [] o g =
      if_intro (λ gs. InGaps base p gs → (cursor ≤ℤ p) × (byte_at [] p ≡ none))
        (ltb_ℤ cursor claimed_end && ltb count max_gaps)
        (λ t g. elim g [
          | inl h ↦
              let lt = ltb→lt _ _ (first_true _ _ t) in
              (
                (gap_between-covers cursor claimed_end p previous none lt (
                    subst (Within cursor claimed_end p previous none)
                      (gap_length cursor claimed_end previous none) h)).0,
                byte_at-nil p,
              )
          | inr r ↦ absurd r
        ])
        (λ _ g. absurd g) g
  gaps_from_sound count cursor p previous (iv ∷ ivs) o g =
      elim (add_gap_sound cursor p previous iv _ g) [
        | inl (lo, hi) ↦ (
          lo,
          byte_at_left iv ivs p hi
              ∙ byte_at_below (end_of iv) p ivs o.2
                  (omega (arith, hi, +ℤ_parts iv.start (pos (length iv.bytes)))),
        )
        | inr r ↦
            let ih =
              gaps_from_sound (if ltb_ℤ cursor iv.start then count + 1 else count)
                (max_ℤ cursor (end_of iv)) p (some iv) ivs (move_on cursor iv ivs o)
                (cut_sound p _ _ r) in
            let past : end_of iv ≤ℤ p =
              subst (λ c. c ≤ℤ p) (max_end cursor cursor iv o.0 o.1) ih.0 in
            (
              omega (arith, past, o.0, +ℤ_parts iv.start (pos (length iv.bytes))),
              byte_at_right iv ivs p past ∙ ih.1,
            )
      ]

-- No gap that is reported covers a byte that the store holds.
pub build_gaps_sound :
    (s : DirectionalReassembler) (max_gaps : ℕ) (base low p : ℤ)
    → IsOrdered low s.intervals
    → byte_at s.intervals p ≢ none
    → ¬ InGaps base p (build_gaps s max_gaps base)
unfolding build_gaps
build_gaps_sound s max_gaps base low p o n g = n (by_store s.intervals o g)
  where
    by_store :
        (ivs : List Interval)
        → IsOrdered low ivs
        → InGaps base p (gaps_of s max_gaps base ivs)
        → byte_at ivs p ≡ none
    by_store [] o' g' = absurd g'
    by_store (iv ∷ ivs) o' g' =
        (gaps_from_sound s max_gaps base (claimed s (end_of iv) ivs) 0 iv.start p none (iv ∷ ivs)
          (omega arith, o'.1, o'.2) g').1
