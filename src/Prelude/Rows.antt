-- ===== src/Prelude/Rows.antt =====
-- Tables as lists of rows, and the statements on them: a WHERE clause, an UPDATE, a DELETE.
use Prim.Native.Nat.{ℕ}
use mathlib.Core.Path.{◌≡◌, refl}
use mathlib.Core.Bool.{Bool, true, false, not}
use mathlib.Core.Option.{Option, none, some}
use mathlib.Core.List.{List, [], ◌∷◌, ◌++◌}
use native.Mathlib.Omega.{arith}
use mathlib.Core.Logic.{inl, inr}
use fastapi_template.Prelude.Tests.{Bool-cases, if◌then◌else◌, leb}
use fastapi_template.Prelude.Lists.{length, any, All}

module _ {ℓ} {R : Type ℓ} where
  -- SELECT … WHERE p
  abbrev pub select : (R → Bool) → List R → List R
  select p [] = []
  select p (r ∷ rs) = let rest = select p rs in if p r then r ∷ rest else rest

  -- UPDATE … SET f WHERE p
  abbrev pub update : (R → Bool) → (R → R) → List R → List R
  update p f [] = []
  update p f (r ∷ rs) = (if p r then f r else r) ∷ update p f rs

  -- DELETE … WHERE p
  abbrev pub delete : (R → Bool) → List R → List R
  delete p rs = select (λ r. not (p r)) rs

  abbrev pub count : (R → Bool) → List R → ℕ
  count p rs = length (select p rs)

  abbrev pub first : List R → Option R
  first [] = none
  first (r ∷ rs) = some r

  -- ORDER BY a number
  abbrev pub insert_by : (R → ℕ) → R → List R → List R
  insert_by f r [] = r ∷ []
  insert_by f r (x ∷ xs) =
      let rest = insert_by f r xs in if leb (f r) (f x) then r ∷ x ∷ xs else x ∷ rest

  abbrev pub order_by : (R → ℕ) → List R → List R
  order_by f [] = []
  order_by f (r ∷ rs) = insert_by f r (order_by f rs)

  pub select-append :
      (p : R → Bool) (xs ys : List R) → select p (xs ++ ys) ≡ select p xs ++ select p ys
  select-append p [] ys = refl
  select-append p (x ∷ xs) ys = ground (arith, select-append p xs ys)

  pub select_none : (p : R → Bool) (rs : List R) → any p rs ≡ false → select p rs ≡ []
  select_none p [] h = refl
  select_none p (r ∷ rs) h = ground (arith, select_none p rs)

  pub any_of_select_none : (p : R → Bool) (rs : List R) → select p rs ≡ [] → any p rs ≡ false
  any_of_select_none p [] h = refl
  any_of_select_none p (r ∷ rs) h = ground (arith, any_of_select_none p rs)

  pub All-select : (P : R → Type 0) (p : R → Bool) (rs : List R) → All P rs → All P (select p rs)
  All-select P p [] h = tt
  All-select P p (r ∷ rs) h = ground (arith, All-select P p rs h.1)

  pub All-select_holds : (p : R → Bool) (rs : List R) → All (λ r. p r ≡ true) (select p rs)
  All-select_holds p [] = tt
  All-select_holds p (r ∷ rs) = ground (arith, All-select_holds p rs)

  -- A write after which no row answers a query.
  pub select-update_none :
      (q p : R → Bool) (f : R → R) (rs : List R)
      → ((r : R) → q (if p r then f r else r) ≡ false)
      → select q (update p f rs) ≡ []
  select-update_none q p f [] h = refl
  select-update_none q p f (r ∷ rs) h = rw (h r) (select-update_none q p f rs h)

  -- A write of rows that a query does not see.
  pub select-update_other :
      (q p : R → Bool) (f : R → R) (rs : List R)
      → ((r : R) → p r ≡ true → (q r ≡ false) × (q (f r) ≡ false))
      → select q (update p f rs) ≡ select q rs
  select-update_other q p f [] h = refl
  select-update_other q p f (r ∷ rs) h = elim (Bool-cases (p r)) [
    | inl written ↦ rw (written, (h r written).0, (h r written).1) (select-update_other q p f rs h)
    | inr other ↦ rw other (ground (arith, select-update_other q p f rs h))
  ]
