-- ===== src/Repositories/RequestLogs/Outcomes.antt =====
-- The ranges of statuses that app/repositories/request_log_repo.py filters by.
use fastapi_template.Prelude.{ℕ, ◌≤◌, ◌≡◌, ◌↔◌, true, arith}
use fastapi_template.Repositories.RequestLogs.{
  Outcome, success, warning, error, max_status, outcome_for, outcome_range, is_between,
}

-- For every status up to 599, the filter for an outcome takes it exactly where the outcome that is
-- shown for it is that one.
pub outcome_range_iff :
    (status : ℕ) (o : Outcome)
    → status ≤ max_status
    → (is_between (outcome_range o) status ≡ true) ↔ (outcome_for status ≡ o)
unfolding outcome_for
outcome_range_iff status success small =
    (λ h. ground (arith, h, small), λ h. ground (arith, h, small))
outcome_range_iff status warning small =
    (λ h. ground (arith, h, small), λ h. ground (arith, h, small))
outcome_range_iff status error small =
    (λ h. ground (arith, h, small), λ h. ground (arith, h, small))
