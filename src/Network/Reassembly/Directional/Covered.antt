-- ===== src/Network/Reassembly/Directional/Covered.antt =====
-- With room for more gaps, no position that is claimed is left out.
use securemailscope.Base.{
  ℕ, ◌+◌, ◌<◌, ◌≡◌, ◌≢◌, refl, sym, ◌∙◌, Bool, true, false, List, [], ◌∷◌, Option, none, some,
  length, ◌⊎◌, ltb, leb, lt→ltb, not_ltb→le, ltb→lt, leb→le, if◌then◌else◌, if_intro, arith,
  Bool-cases, Option-cases, inl, inr, subst,
}
use securemailscope.Base.Int.{ℤ, pos, +ℤ_parts, ◌≤ℤ◌, ◌<ℤ◌, ltb_ℤ, max_ℤ}
use securemailscope.Network.Reassembly.Intervals.{Interval, end_of}
use securemailscope.Network.Reassembly.Intervals.Bytes.{
  byte_at, IsOrdered, byte_at_covered, byte_at_right,
}
use securemailscope.Network.Reassembly.Directional.{DirectionalReassembler}
use securemailscope.Network.Reassembly.Directional.Results.{
  ReassemblyGap, gaps_from, last_gap, add_gap, build_gaps, gaps_of, claimed, last_end, latest_end,
}
use securemailscope.Network.Reassembly.Directional.Gaps.{
  InGaps, Within, gap_length, covers-gap_between, move_on, max_end,
}

module _ (s : DirectionalReassembler) (max_gaps : ℕ) (base claimed_end : ℤ) where
  add_gap-here :
      (cursor p : ℤ) (previous : Option Interval) (iv : Interval) (rest : List ReassemblyGap)
      → cursor ≤ℤ p
      → p <ℤ iv.start
      → InGaps base p (add_gap s max_gaps base claimed_end cursor previous iv rest)
  unfolding add_gap
  add_gap-here cursor p previous iv rest lo hi =
      if_intro (InGaps base p) (ltb_ℤ cursor iv.start)
        (λ _. inl (
          subst (Within s max_gaps base claimed_end cursor iv.start p previous (some iv))
            (sym (gap_length s max_gaps base claimed_end cursor iv.start previous (some iv)))
            (covers-gap_between s max_gaps base claimed_end cursor iv.start p previous (some iv) lo
              hi)))
        (λ f. absurd (omega (arith, not_ltb→le _ _ f, lo, hi)))

  add_gap-later :
      (cursor p : ℤ) (previous : Option Interval) (iv : Interval) (rest : List ReassemblyGap)
      → InGaps base p rest
      → InGaps base p (add_gap s max_gaps base claimed_end cursor previous iv rest)
  unfolding add_gap
  add_gap-later cursor p previous iv rest g =
      if_intro (InGaps base p) (ltb_ℤ cursor iv.start) (λ _. inr g) (λ _. g)

  length-add_gap :
      (count : ℕ) (cursor : ℤ) (previous : Option Interval) (iv : Interval)
      (rest : List ReassemblyGap)
      → count + length (add_gap s max_gaps base claimed_end cursor previous iv rest)
        ≡ (if ltb_ℤ cursor iv.start then count + 1 else count) + length rest
  unfolding add_gap
  length-add_gap count cursor previous iv rest = elim (Bool-cases (ltb_ℤ cursor iv.start)) [
    | inl t ↦ rw t (omega arith)
    | inr f ↦ rw f refl
  ]

  cut_complete :
      (n : ℕ) (b : Bool) (rest : List ReassemblyGap)
      → leb max_gaps n ≡ b
      → n + length (if b then [] else rest) < max_gaps
      → (if b then [] else rest) ≡ rest
  cut_complete n true rest e h = absurd (omega (arith, leb→le _ _ e, h))
  cut_complete n false rest e h = refl

  pub gaps_from_complete :
      (count : ℕ) (cursor p : ℤ) (previous : Option Interval) (ivs : List Interval)
      → IsOrdered cursor ivs
      → count + length (gaps_from s max_gaps base claimed_end count cursor previous ivs) < max_gaps
      → cursor ≤ℤ p
      → p <ℤ claimed_end
      → byte_at ivs p ≡ none
      → InGaps base p (gaps_from s max_gaps base claimed_end count cursor previous ivs)
  unfolding gaps_from last_gap
  gaps_from_complete count cursor p previous [] o room lo hi e =
      let t : ltb_ℤ cursor claimed_end ≡ true = lt→ltb _ _ (omega (arith, lo, hi)) in
      let u : ltb count max_gaps ≡ true = lt→ltb _ _ (omega (arith, room)) in
      rw (t, u)
        (inl (
          subst (Within s max_gaps base claimed_end cursor claimed_end p previous none)
            (sym (gap_length s max_gaps base claimed_end cursor claimed_end previous none))
            (covers-gap_between s max_gaps base claimed_end cursor claimed_end p previous none lo
              hi)))
  gaps_from_complete count cursor p previous (iv ∷ ivs) o room lo hi e =
      elim (Bool-cases (ltb_ℤ p iv.start)) [
        | inl t ↦ add_gap-here cursor p previous iv _ lo (ltb→lt _ _ t)
        | inr f ↦
            let behind = not_ltb→le _ _ f in
            elim (Bool-cases (ltb_ℤ p (end_of iv))) [
              | inl t ↦ absurd ((byte_at_covered iv ivs p behind (ltb→lt _ _ t)).1 e)
              | inr g ↦
                  let past = not_ltb→le _ _ g in
                  let count' = if ltb_ℤ cursor iv.start then count + 1 else count in
                  let rest =
                    gaps_from s max_gaps base claimed_end count' (max_ℤ cursor (end_of iv))
                      (some iv) ivs in
                  let room' : count' + length (if leb max_gaps count' then [] else rest)
                      < max_gaps =
                    omega (
                      arith,
                      length-add_gap count cursor previous iv
                          (if leb max_gaps count' then [] else rest),
                      room,
                    ) in
                  let whole = cut_complete count' (leb max_gaps count') rest refl room' in
                  let c : max_ℤ cursor (end_of iv) ≤ℤ p =
                    subst (λ c. c ≤ℤ p)
                      (sym (max_end s max_gaps base claimed_end cursor cursor iv o.0 o.1)) past in
                  let ih =
                    gaps_from_complete count' (max_ℤ cursor (end_of iv)) p (some iv) ivs
                      (move_on s max_gaps base claimed_end cursor iv ivs o)
                      (subst (λ gs. count' + length gs < max_gaps) whole room') c hi
                      (sym (byte_at_right iv ivs p past) ∙ e) in
                  add_gap-later cursor p previous iv _ (subst (InGaps base p) (sym whole) ih)
            ]
      ]

-- An interval ends behind the position.
abbrev pub InFrontOfEnd : ℤ → List Interval → Type 0
InFrontOfEnd p [] = ⊥
InFrontOfEnd p (iv ∷ ivs) = (p <ℤ end_of iv) ⊎ InFrontOfEnd p ivs

-- A recorded range ends behind the position.
abbrev pub InFrontOf : ℤ → List (ℤ × ℤ) → Type 0
InFrontOf p [] = ⊥
InFrontOf p (range ∷ ranges) = (p <ℤ range.1) ⊎ InFrontOf p ranges

-- Something that was received or announced ends behind the position.
abbrev pub IsClaimed : DirectionalReassembler → ℤ → Type 0
IsClaimed s p =
    InFrontOfEnd p s.intervals ⊎ InFrontOf p s.not_captured ⊎ InFrontOf p s.limit_dropped

max_facts : (a b : ℤ) → (a ≤ℤ max_ℤ a b) × (b ≤ℤ max_ℤ a b)
max_facts a b =
    if_intro (λ m. (a ≤ℤ m) × (b ≤ℤ m)) (ltb_ℤ a b)
      (λ t. (omega (arith, ltb→lt _ _ t), omega arith))
      (λ f. (omega arith, omega (arith, not_ltb→le _ _ f)))

latest_end-start : (end : ℤ) (ranges : List (ℤ × ℤ)) → end ≤ℤ latest_end end ranges
unfolding latest_end
latest_end-start end [] = omega arith
latest_end-start end ((a, b) ∷ ranges) =
    omega (arith, (max_facts end b).0, latest_end-start (max_ℤ end b) ranges)

latest_end-range :
    (p end : ℤ) (ranges : List (ℤ × ℤ)) → InFrontOf p ranges → p <ℤ latest_end end ranges
unfolding latest_end
latest_end-range p end [] c = absurd c
latest_end-range p end ((a, b) ∷ ranges) (inl h) =
    omega (arith, h, (max_facts end b).1, latest_end-start (max_ℤ end b) ranges)
latest_end-range p end ((a, b) ∷ ranges) (inr c) = latest_end-range p (max_ℤ end b) ranges c

last_end-interval :
    (p low : ℤ) (iv : Interval) (ivs : List Interval)
    → IsOrdered low (iv ∷ ivs)
    → InFrontOfEnd p (iv ∷ ivs)
    → p <ℤ last_end (end_of iv) ivs
unfolding last_end
last_end-interval p low iv [] o (inl h) = h
last_end-interval p low iv [] o (inr c) = absurd c
last_end-interval p low iv (next ∷ ivs) o (inr c) = last_end-interval p (end_of iv) next ivs o.2 c
last_end-interval p low iv (next ∷ ivs) o (inl h) =
    last_end-interval p (end_of iv) next ivs o.2
      (inl (omega (arith, h, o.2.0, o.2.1, +ℤ_parts next.start (pos (length next.bytes)))))

claimed-IsClaimed :
    (s : DirectionalReassembler) (p low : ℤ) (iv : Interval) (ivs : List Interval)
    → s.intervals ≡ iv ∷ ivs
    → IsOrdered low (iv ∷ ivs)
    → IsClaimed s p
    → p <ℤ claimed s (end_of iv) ivs
unfolding claimed
claimed-IsClaimed s p low iv ivs e o c =
    let held = last_end (end_of iv) ivs in
    let cut = latest_end held s.not_captured in
    let up = latest_end-start held s.not_captured in
    let up' = latest_end-start cut s.limit_dropped in
    elim c [
      | inl h ↦
          let k = last_end-interval p low iv ivs o (subst (InFrontOfEnd p) e h) in
          omega (arith, k, up, up')
      | inr (inl h) ↦ let k = latest_end-range p held s.not_captured h in omega (arith, k, up')
      | inr (inr h) ↦ latest_end-range p cut s.limit_dropped h
    ]

-- Every position from the first held byte on that lies in front of the end of an interval, of a
-- truncated packet or of a range that a limit dropped is held or lies in a gap, if fewer gaps than
-- the limit are reported.
pub build_gaps_complete :
    (s : DirectionalReassembler) (max_gaps : ℕ) (base low p : ℤ) (iv : Interval)
    (ivs : List Interval)
    → s.intervals ≡ iv ∷ ivs
    → IsOrdered low (iv ∷ ivs)
    → length (build_gaps s max_gaps base) < max_gaps
    → iv.start ≤ℤ p
    → IsClaimed s p
    → (byte_at s.intervals p ≢ none) ⊎ InGaps base p (build_gaps s max_gaps base)
unfolding build_gaps
build_gaps_complete s max_gaps base low p iv ivs e o room lo c =
    let hi = claimed-IsClaimed s p low iv ivs e o c in
    let room' = subst (λ xs. length (gaps_of s max_gaps base xs) < max_gaps) e room in
    subst (λ xs. (byte_at xs p ≢ none) ⊎ InGaps base p (gaps_of s max_gaps base xs)) (sym e)
      (elim (Option-cases (byte_at (iv ∷ ivs) p)) [
        | inr (b, k) ↦ inl (λ n. absurd (cc (n, k)))
        | inl k ↦ inr (
            gaps_from_complete s max_gaps base (claimed s (end_of iv) ivs) 0 iv.start p none
              (iv ∷ ivs) (omega arith, o.1, o.2) (omega (arith, room')) lo hi k)
      ])
