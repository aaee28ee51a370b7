-- ===== src/Tests/Scores.antt =====
-- Scores with the weights of the default policy and its floor of one half.
use securemailscope.Base.{◌≤◌, ◌≡◌, refl, [], ◌∷◌, none, some, ◌⊎◌}
use securemailscope.Assessment.Scoring.{
  fail, pass, unknown, ScoringUnit, Policy, compute_score, scored, is_fail, is_pass, is_unknown,
  is_sufficient, raw_score, round, half_even,
}
use securemailscope.Assessment.Scoring.Outcomes.{
  compute_score-unknown, compute_score_more_violations,
}

abbrev half : Policy
half = record { numerator = 1; denominator = 2 }

abbrev failed_high : ScoringUnit
failed_high = record { outcome = fail; weight = 6 }

abbrev passed_critical : ScoringUnit
passed_critical = record { outcome = pass; weight = 10 }

abbrev failed_critical : ScoringUnit
failed_critical = record { outcome = fail; weight = 10 }

abbrev unknown_medium : ScoringUnit
unknown_medium = record { outcome = unknown; weight = 3 }

-- 62.5 is rounded to the even 62.
tie : (compute_score (passed_critical ∷ failed_high ∷ []) half).score ≡ some 62
unfolding compute_score scored is_fail is_pass is_unknown is_sufficient raw_score round half_even
tie = refl

tie' : (compute_score (failed_high ∷ passed_critical ∷ []) half).score ≡ some 62
unfolding compute_score scored is_fail is_pass is_unknown is_sufficient raw_score round half_even
tie' = refl

all_passed : (compute_score (passed_critical ∷ []) half).score ≡ some 100
unfolding compute_score scored is_fail is_pass is_unknown is_sufficient raw_score round half_even
all_passed = refl

all_failed : (compute_score (failed_critical ∷ failed_high ∷ []) half).score ≡ some 0
unfolding compute_score scored is_fail is_pass is_unknown is_sufficient raw_score round half_even
all_failed = refl

compute_score-unknown_example :
    ((compute_score (unknown_medium ∷ passed_critical ∷ []) half).score ≡ none)
    ⊎ ((compute_score (unknown_medium ∷ passed_critical ∷ []) half).score
        ≡ (compute_score (passed_critical ∷ []) half).score)
compute_score-unknown_example = compute_score-unknown (passed_critical ∷ []) half 3

compute_score_more_violations_example : 62 ≤ 100
compute_score_more_violations_example =
    compute_score_more_violations (passed_critical ∷ []) half 6 100 62 all_passed tie'
