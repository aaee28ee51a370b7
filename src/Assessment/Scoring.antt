-- ===== src/Assessment/Scoring.antt =====
-- assessment/scoring.py: `compute_score` and `_band`. Weights are multiples of one unit, as those of
-- the default policy are, and the arithmetic on them is exact; the coverage floor is a fraction.
pub mod Rounding
pub mod Outcomes
use securemailscope.Base.{
  ℕ, ◌+◌, ◌-◌, ◌*◌, ◌/◌, ◌%◌, Bool, true, false, ◌&&◌, ◌||◌, List, [], ◌∷◌, Option, none, some,
  length, filter, ltb, leb, ◌==◌, if◌then◌else◌, min,
}

pub data RuleOutcome : Type 0 where
  fail pass unknown not_applicable : RuleOutcome

-- The fields of ScoringUnit that the score is computed from.
pub record ScoringUnit : Type 0 where
  pub outcome : RuleOutcome
  pub weight : ℕ

pub data ScoreBand : Type 0 where
  strong adequate weak critical not_available : ScoreBand

pub data ScoreStatus : Type 0 where
  available score_unavailable : ScoreStatus

pub record ControlTally : Type 0 where
  pub total_applicable : ℕ
  pub evaluated : ℕ
  pub passed : ℕ
  pub failed : ℕ
  pub unknown_count : ℕ
  pub not_applicable_count : ℕ

pub record PostureScore : Type 0 where
  pub status : ScoreStatus
  pub score : Option ℕ
  pub band : ScoreBand
  pub tally : ControlTally
  pub sufficient : Bool
  pub weighted_applicable : ℕ
  pub weighted_evaluated : ℕ
  pub weighted_deductions : ℕ

-- minimum_coverage_for_score, as `numerator / denominator`.
pub record Policy : Type 0 where
  pub numerator : ℕ
  pub denominator : ℕ

unfoldable pub is_fail : ScoringUnit → Bool
is_fail u = elim (u.outcome) [
  | fail ↦ true
  | pass ↦ false
  | unknown ↦ false
  | not_applicable ↦ false
]

unfoldable pub is_pass : ScoringUnit → Bool
is_pass u = elim (u.outcome) [
  | fail ↦ false
  | pass ↦ true
  | unknown ↦ false
  | not_applicable ↦ false
]

unfoldable pub is_unknown : ScoringUnit → Bool
is_unknown u = elim (u.outcome) [
  | fail ↦ false
  | pass ↦ false
  | unknown ↦ true
  | not_applicable ↦ false
]

unfoldable pub is_not_applicable : ScoringUnit → Bool
is_not_applicable u = elim (u.outcome) [
  | fail ↦ false
  | pass ↦ false
  | unknown ↦ false
  | not_applicable ↦ true
]

abbrev pub sum_weights : List ScoringUnit → ℕ
sum_weights [] = 0
sum_weights (u ∷ us) = u.weight + sum_weights us

-- The units with a weight that a test selects.
unfoldable pub scored : (ScoringUnit → Bool) → List ScoringUnit → List ScoringUnit
scored test us = filter test (filter (λ u. ltb 0 u.weight) us)

unfoldable pub band : ℕ → ScoreBand
band score =
    if leb 90 score
    then ScoreBand.strong
    else if leb 70 score
    then ScoreBand.adequate
    else if leb 40 score
    then ScoreBand.weak
    else ScoreBand.critical

-- Python's `round` of a quotient with its floor and what is left: to the nearest, a tie to the even.
unfoldable pub half_even : ℕ → ℕ → ℕ → ℕ
half_even q r d =
    if ltb (2 * r) d then q else if ltb d (2 * r) then q + 1 else if q % 2 == 0 then q else q + 1

-- round(n / d)
unfoldable pub round : ℕ → ℕ → ℕ
unfolding half_even
round n d = half_even (n / d) (n - n / d * d) d

-- weighted_evaluated > 0 and coverage_ratio >= policy.minimum_coverage_for_score
unfoldable pub is_sufficient : Policy → ℕ → ℕ → Bool
is_sufficient policy evaluated applicable =
    ltb 0 evaluated && leb (policy.numerator * applicable) (policy.denominator * evaluated)

unfoldable pub raw_score : ℕ → ℕ → ℕ
raw_score evaluated deductions = min 100 (round (100 * (evaluated - deductions)) evaluated)

unfoldable pub compute_score : List ScoringUnit → Policy → PostureScore
unfolding scored is_fail is_pass is_unknown is_not_applicable is_sufficient raw_score
compute_score units policy =
    let failed = scored is_fail units in
    let passed = scored is_pass units in
    let evaluated = scored (λ u. is_fail u || is_pass u) units in
    let unknowns = scored is_unknown units in
    let weighted_evaluated = sum_weights evaluated in
    let weighted_applicable = weighted_evaluated + sum_weights unknowns in
    let weighted_deductions = sum_weights failed in
    let sufficient = is_sufficient policy weighted_evaluated weighted_applicable in
    let score = raw_score weighted_evaluated weighted_deductions in
    record {
      status = if sufficient then ScoreStatus.available else ScoreStatus.score_unavailable;
      score = if sufficient then some score else none;
      band = if sufficient then band score else ScoreBand.not_available;
      tally = record {
        total_applicable = length evaluated + length unknowns;
        evaluated = length evaluated;
        passed = length passed;
        failed = length failed;
        unknown_count = length unknowns;
        not_applicable_count = length (filter is_not_applicable units);
      };
      sufficient = sufficient;
      weighted_applicable = weighted_applicable;
      weighted_evaluated = weighted_evaluated;
      weighted_deductions = weighted_deductions;
    }
