-- ===== src/Assessment/Scoring/Outcomes.antt =====
-- What an outcome does to the score: an UNKNOWN never improves it, a violation never raises it.
use securemailscope.Base.{
  ℕ, ◌+◌, ◌-◌, ◌*◌, ◌≤◌, ◌<◌, ◌≡◌, refl, ap, sym, ◌∙◌, subst, Bool, true, false, ◌||◌, List, ◌∷◌,
  Option, none, some, ◌⊎◌, inl, inr, filter, ltb, leb, if◌then◌else◌, not_ltb→le, leb→le, le→leb,
  arith, Bool-cases,
}
use securemailscope.Assessment.Scoring.{
  RuleOutcome, fail, pass, unknown, not_applicable, ScoringUnit, Policy, compute_score, scored,
  sum_weights, is_fail, is_pass, is_unknown, is_sufficient, raw_score,
}
use securemailscope.Assessment.Scoring.Rounding.{round_mono, round_wider}

-- A unit adds its weight to the sum over the units that a test selects, if it passes the test.
sum_weights-scored :
    (test : ScoringUnit → Bool) (u : ScoringUnit) (us : List ScoringUnit)
    → sum_weights (scored test (u ∷ us))
      ≡ (if test u then u.weight else 0) + sum_weights (scored test us)
unfolding scored
sum_weights-scored test u us = by_weight (ltb 0 u.weight) refl
  where
    rest : List ScoringUnit
    rest = filter (λ v. ltb 0 v.weight) us

    by_test :
        (c : Bool)
        → sum_weights (elim c [ true ↦ u ∷ filter test rest | false ↦ filter test rest ])
          ≡ (if c then u.weight else 0) + sum_weights (filter test rest)
    by_test true = refl
    by_test false = omega arith

    none_of :
        (c : Bool)
        → u.weight ≡ 0
        → sum_weights (filter test rest)
          ≡ (if c then u.weight else 0) + sum_weights (filter test rest)
    none_of true e = omega (arith, e)
    none_of false e = omega arith

    by_weight :
        (a : Bool)
        → ltb 0 u.weight ≡ a
        → sum_weights (filter test (elim a [ true ↦ u ∷ rest | false ↦ rest ]))
          ≡ (if test u then u.weight else 0) + sum_weights (filter test rest)
    by_weight true e = by_test (test u)
    by_weight false e = none_of (test u) (omega (arith, not_ltb→le _ _ e))

abbrev evaluated : List ScoringUnit → ℕ
evaluated us = sum_weights (scored (λ u. is_fail u || is_pass u) us)

abbrev deductions : List ScoringUnit → ℕ
deductions us = sum_weights (scored is_fail us)

abbrev unknowns : List ScoringUnit → ℕ
unknowns us = sum_weights (scored is_unknown us)

-- The sums of a list with one more unit.
sums :
    (o : RuleOutcome) (w : ℕ) (us : List ScoringUnit)
    → (evaluated (record { outcome = o; weight = w } ∷ us)
        ≡ elim o [ fail ↦ w | pass ↦ w | unknown ↦ 0 | not_applicable ↦ 0 ] + evaluated us)
      × (deductions (record { outcome = o; weight = w } ∷ us)
          ≡ elim o [ fail ↦ w | pass ↦ 0 | unknown ↦ 0 | not_applicable ↦ 0 ] + deductions us)
      × (unknowns (record { outcome = o; weight = w } ∷ us)
          ≡ elim o [ fail ↦ 0 | pass ↦ 0 | unknown ↦ w | not_applicable ↦ 0 ] + unknowns us)
unfolding is_fail is_pass is_unknown
sums fail w us = (
  sum_weights-scored (λ u. is_fail u || is_pass u) _ us,
  sum_weights-scored is_fail _ us,
  sum_weights-scored is_unknown _ us,
)
sums pass w us = (
  sum_weights-scored (λ u. is_fail u || is_pass u) _ us,
  sum_weights-scored is_fail _ us,
  sum_weights-scored is_unknown _ us,
)
sums unknown w us = (
  sum_weights-scored (λ u. is_fail u || is_pass u) _ us,
  sum_weights-scored is_fail _ us,
  sum_weights-scored is_unknown _ us,
)
sums not_applicable w us = (
  sum_weights-scored (λ u. is_fail u || is_pass u) _ us,
  sum_weights-scored is_fail _ us,
  sum_weights-scored is_unknown _ us,
)

abbrev score_of : Policy → ℕ → ℕ → ℕ → Option ℕ
score_of p e d n = if is_sufficient p e (e + n) then some (raw_score e d) else none

score_lem :
    (us : List ScoringUnit) (p : Policy)
    → (compute_score us p).score ≡ score_of p (evaluated us) (deductions us) (unknowns us)
unfolding compute_score
score_lem us p = refl

score_of_cong :
    (p : Policy) (e e' d d' n n' : ℕ)
    → e ≡ e'
    → d ≡ d'
    → n ≡ n'
    → score_of p e d n ≡ score_of p e' d' n'
score_of_cong p e e' d d' n n' x y z =
    ap (λ k. score_of p k d n) x ∙ ap (λ k. score_of p e' k n) y ∙ ap (λ k. score_of p e' d' k) z

if_some : (b : Bool) (x s : ℕ) → (if b then some x else none) ≡ some s → (b ≡ true) × (x ≡ s)
if_some true x s h = (refl, ground arith)
if_some false x s h = absurd (cc h)

sufficient-positive : (p : Policy) (e a : ℕ) → is_sufficient p e a ≡ true → 0 < e
unfolding is_sufficient
sufficient-positive p e a h = ground arith

sufficient_less :
    (p : Policy) (e a w : ℕ) → is_sufficient p e (a + w) ≡ true → is_sufficient p e a ≡ true
unfolding is_sufficient
sufficient_less p e a w h =
    let t : ltb 0 e ≡ true = ground arith in
    let u : leb (p.numerator * (a + w)) (p.denominator * e) ≡ true = ground arith in
    rw (t, le→leb (p.numerator * a) (p.denominator * e) (omega (arith, leb→le _ _ u))) refl

raw_score-more : (e d w : ℕ) → 0 < e → raw_score e (w + d) ≤ raw_score e d
unfolding raw_score
raw_score-more e d w h =
    omega (arith, round_mono (100 * (e - (w + d))) (100 * (e - d)) e h (omega arith))

raw_score-wider : (e d w : ℕ) → 0 < e → raw_score (w + e) (w + d) ≤ raw_score e d
unfolding raw_score
raw_score-wider e d w h =
    let less : w + e - (w + d) ≡ e - d = omega arith in
    let more : w + e ≡ e + w = omega arith in
    rw (less, more) (omega (arith, round_wider (100 * (e - d)) e w h))

-- Adding an UNKNOWN unit leaves the score as it is, or makes it unavailable.
pub compute_score-unknown :
    (us : List ScoringUnit) (policy : Policy) (w : ℕ)
    → ((compute_score (record { outcome = unknown; weight = w } ∷ us) policy).score ≡ none)
      ⊎ ((compute_score (record { outcome = unknown; weight = w } ∷ us) policy).score
          ≡ (compute_score us policy).score)
compute_score-unknown us policy w =
    let (e, d, n) = sums unknown w us in
    let E = evaluated us in
    let more =
      score_lem (record { outcome = unknown; weight = w } ∷ us) policy
      ∙ score_of_cong policy _ E _ (deductions us) _ (unknowns us + w) (e ∙ omega arith)
          (d ∙ omega arith) (n ∙ omega arith) in
    elim (Bool-cases (is_sufficient policy E (E + (unknowns us + w)))) [
      | inr f ↦ inl (more ∙ ap (λ b. if b then some (raw_score E (deductions us)) else none) f)
      | inl t ↦
          let same : E + (unknowns us + w) ≡ E + unknowns us + w = omega arith in
          let t' =
            sufficient_less policy E (E + unknowns us) w
              (subst (λ a. is_sufficient policy E a ≡ true) same t) in
          inr (
            more
            ∙ ap (λ b. if b then some (raw_score E (deductions us)) else none) (t ∙ sym t')
            ∙ sym (score_lem us policy))
    ]

-- A unit that fails where it had passed never raises the score.
pub compute_score_violation :
    (us : List ScoringUnit) (policy : Policy) (w s t : ℕ)
    → (compute_score (record { outcome = pass; weight = w } ∷ us) policy).score ≡ some s
    → (compute_score (record { outcome = fail; weight = w } ∷ us) policy).score ≡ some t
    → t ≤ s
compute_score_violation us policy w s t e f =
    let passed = sums pass w us in
    let failed = sums fail w us in
    let a = if_some _ _ s (
      sym (
        score_lem _ policy
        ∙ score_of_cong policy _ (w + evaluated us) _ (deductions us) _ (unknowns us) passed.0
            (passed.1 ∙ omega arith) (passed.2 ∙ omega arith))
      ∙ e) in
    let b = if_some _ _ t (
      sym (
        score_lem _ policy
        ∙ score_of_cong policy _ (w + evaluated us) _ (w + deductions us) _ (unknowns us) failed.0
            failed.1 (failed.2 ∙ omega arith))
      ∙ f) in
    let positive = sufficient-positive policy (w + evaluated us) _ a.0 in
    omega (arith, a.1, b.1, raw_score-more (w + evaluated us) (deductions us) w positive)

-- One more failed unit never raises a score that is available.
pub compute_score_more_violations :
    (us : List ScoringUnit) (policy : Policy) (w s t : ℕ)
    → (compute_score us policy).score ≡ some s
    → (compute_score (record { outcome = fail; weight = w } ∷ us) policy).score ≡ some t
    → t ≤ s
compute_score_more_violations us policy w s t e f =
    let failed = sums fail w us in
    let a = if_some _ _ s (sym (score_lem us policy) ∙ e) in
    let b = if_some _ _ t (
      sym (
        score_lem _ policy
        ∙ score_of_cong policy _ (w + evaluated us) _ (w + deductions us) _ (unknowns us) failed.0
            failed.1 (failed.2 ∙ omega arith))
      ∙ f) in
    let positive = sufficient-positive policy (evaluated us) _ a.0 in
    omega (arith, a.1, b.1, raw_score-wider (evaluated us) (deductions us) w positive)
