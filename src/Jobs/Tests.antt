-- ===== src/Jobs/Tests.antt =====
-- A run of the drain of app/jobs/maintenance.py.
use fastapi_template.Prelude.{ℕ, [], ◌∷◌, arith}
use fastapi_template.Models.{Table}
use fastapi_template.Jobs.{drain}
use fastapi_template.Jobs.Draining.{IsDrained, drain-IsDrained}

abbrev moments : Table ℕ
moments = record { rows = 1 ∷ 2 ∷ 9 ∷ []; next_id = 4 }

drain-IsDrained_example :
    IsDrained
      (λ i. i)
      (λ i. i)
      (λ j. 5)
      1
      (omega arith)
      5
      0
      moments
      (drain (λ i. i) (λ i. i) (λ j. 5) 1 4 0 0 moments)
drain-IsDrained_example =
    drain-IsDrained (λ i. i) (λ i. i) (λ j. 5) 1 (omega arith) 5 moments (λ j. omega arith)
