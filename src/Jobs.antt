-- ===== src/Jobs.antt =====
-- `_drain` of app/jobs/maintenance.py over a table whose rows have an id and a moment. The cutoff of a
-- round is the time that the round reads, less the retention; the sessions of batches are not modelled.
pub mod Batches
pub mod Draining
mod Tests
use fastapi_template.Prelude.{ℕ, zero, suc, ◌+◌, Option, none, some, ltb, if◌then◌else◌}
use fastapi_template.Models.{Table, Db}
use fastapi_template.Exec.{Exec, pure, ◌>>=◌, ◌>>◌}
use fastapi_template.Repositories.Base.{delete_batch_before}
use fastapi_template.Repositories.RefreshTokens
use fastapi_template.Repositories.SingleUseTokens

-- DELETE_BATCH_SIZE
abbrev pub delete_batch_size : ℕ
delete_batch_size = 5000

module _ {R : Type 0} (id_of moment : R → ℕ) (cutoff : ℕ → ℕ) (batch_size : ℕ) where
  -- The rounds of the loop from `round` on, as many as `fuel`: what was removed, and the table then.
  unfoldable pub drain : ℕ → ℕ → ℕ → Table R → Option (ℕ × Table R)
  unfolding delete_batch_before
  drain zero round removed t = none
  drain (suc fuel) round removed t =
      let batch = delete_batch_before id_of moment (cutoff round) batch_size t in
      let rest = drain fuel (round + 1) (removed + batch.0) batch.1 in
      if ltb batch.0 batch_size then some (removed + batch.0, batch.1) else rest

-- `expire_tokens` at the time `now`
unfoldable pub expire_tokens : ℕ → Exec Db ℕ
expire_tokens now = do
  sessions ← RefreshTokens.delete_expired now
  links ← SingleUseTokens.delete_expired now
  pure (sessions + links)
