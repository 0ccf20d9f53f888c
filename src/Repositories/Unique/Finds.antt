-- ===== src/Repositories/Unique/Finds.antt =====
-- The row that one query finds, and what another query finds.
use fastapi_template.Prelude.{
  ◌≡◌, inl, inr, Bool, true, false, not, ◌&&◌, some, List, [], ◌∷◌, arith, Bool-cases, All, select,
  first,
}
use mathlib.Core.Path.{subst}
use fastapi_template.Repositories.Unique.Keys.{Apart, Separates, All-first, first-select_holds}

-- A wider query finds the same row, where the constraint covers it.
pub first-weaken :
    {R : Type 0} (c : R → R → Bool) (q wide : R → Bool) (rs : List R) (e : R)
    → Separates c wide
    → Apart c rs
    → ((r : R) → q r ≡ true → wide r ≡ true)
    → first (select q rs) ≡ some e
    → first (select wide rs) ≡ some e
first-weaken c q wide [] e sep h w k = absurd (cc)
first-weaken c q wide (r ∷ rs) e sep h w k = elim (Bool-cases (q r)) [
  | inl wanted ↦ ground (arith, wanted, w r wanted, k)
  | inr other ↦ ground (
    arith,
    other,
    first-weaken c q wide rs e sep h.1 w (ground arith),
    sep r e,
    All-first (λ s. c r s ≡ false) q rs e h.0 (ground arith),
    w e (first-select_holds q rs e (ground arith)),
  )
]

-- The row that one query finds is the one that a query on a unique key finds.
module _ {R : Type 0} (c : R → R → Bool) (p q : R → Bool) where
  pub first-found :
      (rs : List R) (e : R)
      → Separates c p
      → Apart c rs
      → first (select q rs) ≡ some e
      → p e ≡ true
      → first (select p rs) ≡ some e
  first-found [] e sep h k pe = absurd (cc)
  first-found (r ∷ rs) e sep h k pe = elim (Bool-cases (q r)) [
    | inl wanted ↦ ground (arith, wanted, k)
    | inr other ↦ ground (
      arith,
      other,
      first-found rs e sep h.1 (ground arith) pe,
      sep r e,
      All-first (λ s. c r s ≡ false) q rs e h.0 (ground arith),
    )
  ]

-- No other row clashes with the one that a query finds.
module _ {R : Type 0} (c : R → R → Bool) (p q : R → Bool)
    (symmetric : (r s : R) → c r s ≡ c s r) where
  beside :
      (r : R) (rs : List R)
      → All (λ s. c r s ≡ false) rs
      → All (λ s. (not (p s) && c r s) ≡ false) rs
  beside r [] h = tt
  beside r (s ∷ rs) h = (ground (arith, h.0), beside r rs h.1)

  pub others-apart :
      (rs : List R) (e : R)
      → Apart c rs
      → first (select q rs) ≡ some e
      → p e ≡ true
      → All (λ s. (not (p s) && c e s) ≡ false) rs
  others-apart [] e h k pe = tt
  others-apart (r ∷ rs) e h k pe = elim (Bool-cases (q r)) [
    | inl wanted ↦
        let same : r ≡ e = ground (arith, wanted, k) in
        let mine : p r ≡ true = rw same pe in
        (
          ground (arith, mine),
          subst (λ a. All (λ s. (not (p s) && c a s) ≡ false) rs) same (beside r rs h.0),
        )
    | inr other ↦
        let later : first (select q rs) ≡ some e = ground (arith, other, k) in
        (
          ground (arith, symmetric r e, All-first (λ s. c r s ≡ false) q rs e h.0 later),
          others-apart rs e h.1 later pe,
        )
  ]
