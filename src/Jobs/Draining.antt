-- ===== src/Jobs/Draining.antt =====
-- The loop of `_drain` in app/jobs/maintenance.py ends, and leaves nothing old.
use fastapi_template.Prelude.{
  ℕ, zero, suc, ◌+◌, ◌≤◌, ◌<◌, ◌≡◌, inl, inr, Bool, Option, none, some, arith, ltb, Bool-cases,
  length, All, All-map, delete, count,
}
use fastapi_template.Models.{Table}
use fastapi_template.Jobs.{drain}
use fastapi_template.Jobs.Batches.{count-delete, batch-full, left-young}
use fastapi_template.Repositories.Base.{doomed, is_hit, delete_batch_before}

module _ {R : Type 0} (id_of moment : R → ℕ) (cutoff : ℕ → ℕ) (batch_size : ℕ)
    (positive : 0 < batch_size) where
  abbrev pub IsDrained : ℕ → ℕ → Table R → Option (ℕ × Table R) → Type 0
  IsDrained bound removed t none = ⊥
  IsDrained bound removed t (some (n, after)) =
      All (λ r. bound ≤ moment r) after.rows × (n + length after.rows ≡ removed + length t.rows)

  carry :
      (bound n removed : ℕ) (before after : Table R) (o : Option (ℕ × Table R))
      → IsDrained bound (removed + n) after o
      → n + length after.rows ≡ length before.rows
      → IsDrained bound removed before o
  carry bound n removed before after none d split = d
  carry bound n removed before after (some (m, last)) d split = (d.0, omega (arith, d.1, split))

  drains :
      (bound fuel round removed : ℕ) (t : Table R)
      → ((j : ℕ) → bound ≤ cutoff j)
      → length t.rows < fuel
      → IsDrained bound removed t (drain id_of moment cutoff batch_size fuel round removed t)
  unfolding drain delete_batch_before
  drains bound zero round removed t later h = absurd (omega (arith, h))
  drains bound (suc fuel) round removed t later h =
      let hit : R → Bool = is_hit id_of (doomed id_of moment (cutoff round) batch_size t.rows) in
      let n : ℕ = count hit t.rows in
      let after : Table R = record { rows = delete hit t.rows; next_id = t.next_id } in
      let split : n + length after.rows ≡ length t.rows = count-delete hit t.rows in
      elim (Bool-cases (ltb (count hit t.rows) batch_size)) [
        | inl last ↦ rw last (
          All-map (λ r e. omega (arith, e, later round)) after.rows
              (left-young id_of moment (cutoff round) batch_size t.rows
                (batch-full id_of moment (cutoff round) batch_size t.rows (ground (arith, last)))),
          omega (arith, split),
        )
        | inr more ↦
            let rest : IsDrained bound (removed + n) after
                (drain id_of moment cutoff batch_size fuel (round + 1) (removed + n) after) =
              drains bound fuel (round + 1) (removed + n) after later
                (ground (arith, more, split, h, positive)) in
            rw more (
              carry bound n removed t after
                (drain id_of moment cutoff batch_size fuel (round + 1) (removed + n) after) rest
                split)
      ]

  -- For a positive batch size, and while nothing else writes the table, one round more than the
  -- table has rows is enough for a drain to end, whatever the cutoffs of its rounds are. Where
  -- none of them is before a bound, no row is left whose moment is before it, and the number that
  -- the drain returns is the number of rows that are gone.
  pub drain-IsDrained :
      (bound : ℕ) (t : Table R)
      → ((j : ℕ) → bound ≤ cutoff j)
      → IsDrained bound 0 t (drain id_of moment cutoff batch_size (length t.rows + 1) 0 0 t)
  drain-IsDrained bound t later = drains bound (length t.rows + 1) 0 0 t later (omega arith)
