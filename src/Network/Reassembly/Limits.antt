-- ===== src/Network/Reassembly/Limits.antt =====
-- What the limits let through: `_grant`, and the loop of `_insert` that spends the grant.
pub mod Grants
use securemailscope.Base.{
  ℕ, ◌+◌, ◌-◌, Bool, true, List, [], ◌∷◌, length, take, ltb, leb, min, ◌==◌, if◌then◌else◌,
}
use securemailscope.Base.Int.{ℤ, pos, ◌+ℤ◌}
use securemailscope.Evidence.{WarningCode}
use securemailscope.Network.ByteBudget as Budget
use securemailscope.Network.Reassembly.Walk.{Range}

-- The budgets that the directions share, and what exhausting them leaves behind.
pub record Limits : Type 0 where
  pub session_budget : Budget.ByteBudget
  pub global_budget : Budget.ByteBudget
  pub truncated_by_limit : Bool
  pub warnings : List WarningCode

taken : Limits → ℕ → Limits
taken l granted =
    if ltb 0 granted
    then record l {
      session_budget = (Budget.take l.session_budget granted).1;
      global_budget = (Budget.take l.global_budget granted).1;
    }
    else l

exhausted : Limits → Limits
exhausted l = record l {
  truncated_by_limit = true;
  warnings =
      (if Budget.remaining l.session_budget == 0
        then WarningCode.limit_session_payload_bytes
        else WarningCode.limit_total_payload_bytes)
      ∷ l.warnings;
}

-- _grant; the warnings stand with the latest first.
unfoldable pub grant : Limits → ℕ → ℕ × Limits
unfolding taken exhausted
grant l amount =
    let granted =
      min (min (Budget.remaining l.session_budget) (Budget.remaining l.global_budget)) amount in
    if leb amount 0
    then (0, l)
    else (granted, if ltb granted amount then exhausted (taken l granted) else taken l granted)

pub record Accepted : Type 0 where
  pub ranges : List Range
  pub dropped : List (ℤ × ℤ)
  pub stored_new : ℕ

-- The loop over `new_ranges`. What is left of the grant behind a range is `granted - len(chunk)`
-- in each branch, since a subtraction stops at 0.
unfoldable pub accept_ranges : ℕ → List Range → Accepted
accept_ranges granted [] = record { ranges = []; dropped = []; stored_new = 0 }
accept_ranges granted ((range_start, chunk) ∷ rest) =
    let later = accept_ranges (granted - length chunk) rest in
    let range_end = range_start +ℤ pos (length chunk) in
    if leb granted 0
    then record later { dropped = (range_start, range_end) ∷ later.dropped }
    else if ltb granted (length chunk)
    then record {
      ranges = (range_start, take granted chunk) ∷ later.ranges;
      dropped = (range_start +ℤ pos granted, range_end) ∷ later.dropped;
      stored_new = granted + later.stored_new;
    }
    else record {
      ranges = (range_start, chunk) ∷ later.ranges;
      dropped = later.dropped;
      stored_new = length chunk + later.stored_new;
    }
