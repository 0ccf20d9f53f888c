-- ===== src/Repositories/Base.antt =====
-- app/repositories/base.py
use fastapi_template.Prelude.{
  Bool, ℕ, Option, none, some, List, [], ◌∷◌, select, delete, count, order_by, take, any, ltb, ◌==◌,
}
use fastapi_template.Errors.{Result, ok, err, multiple_results_found}
use fastapi_template.Models.{Table}

-- `scalar_one_or_none`, in `_one_or_none`
abbrev pub one_or_none : {R : Type 0} → List R → Result (Option R)
one_or_none [] = ok none
one_or_none (r ∷ []) = ok (some r)
one_or_none (r ∷ s ∷ rest) = err multiple_results_found

abbrev pub map_result : {A B : Type 0} → (A → B) → Result A → Result B
map_result f (ok a) = ok (f a)
map_result f (err e) = err e

-- The subquery of `_delete_batch_before`: the ids of the first rows, in the order of ids, whose
-- moment is before the cutoff.
abbrev pub doomed : {R : Type 0} → (R → ℕ) → (R → ℕ) → ℕ → ℕ → List R → List R
doomed id_of moment cutoff batch_size rows =
    take batch_size (order_by id_of (select (λ r. ltb (moment r) cutoff) rows))

-- `identifier.in_(doomed)`
abbrev pub is_hit : {R : Type 0} → (R → ℕ) → List R → R → Bool
is_hit id_of chosen r = any (λ d. id_of d == id_of r) chosen

-- `_delete_batch_before`: the number of rows deleted, and the table without them.
unfoldable pub delete_batch_before :
    {R : Type 0} → (R → ℕ) → (R → ℕ) → ℕ → ℕ → Table R → ℕ × Table R
delete_batch_before {R} id_of moment cutoff batch_size t =
    let hit : R → Bool = is_hit id_of (doomed id_of moment cutoff batch_size t.rows) in
    (count hit t.rows, record { rows = delete hit t.rows; next_id = t.next_id })
