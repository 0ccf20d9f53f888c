-- ===== src/Repositories/Cursor/Order.antt =====
-- The order of pages: strict where no two rows have one id.
use fastapi_template.Prelude.{
  ℕ, ◌≡◌, refl, inl, inr, Bool, true, false, List, [], ◌∷◌, ◌++◌, arith, ◌==◌, if◌then◌else◌,
  Bool-cases, All, All-map, select, All-select,
}
use fastapi_template.Repositories.Cursor.{is_before, insert_newest, newest_first}
use fastapi_template.Repositories.Unique.{Apart}

module _ {R : Type 0} (key : R → ℕ × ℕ) where
  abbrev pub IsNewestFirst : List R → Type 0
  IsNewestFirst [] = Unit
  IsNewestFirst (x ∷ xs) = All (λ y. is_before (key y) (key x) ≡ true) xs × IsNewestFirst xs

  abbrev pub same_id : R → R → Bool
  same_id r s = (key r).1 == (key s).1

  pub All-insert_newest :
      (P : R → Type 0) (r : R) (xs : List R) → P r → All P xs → All P (insert_newest key r xs)
  All-insert_newest P r [] p h = (p, tt)
  All-insert_newest P r (x ∷ xs) p h = elim (Bool-cases (is_before (key x) (key r))) [
    | inl newer ↦ rw newer (p, h)
    | inr older ↦ rw older (h.0, All-insert_newest P r xs p h.1)
  ]

  pub All-newest_first : (P : R → Type 0) (rs : List R) → All P rs → All P (newest_first key rs)
  All-newest_first P [] h = tt
  All-newest_first P (r ∷ rs) h =
      All-insert_newest P r (newest_first key rs) h.0 (All-newest_first P rs h.1)

  before_trans :
      (x : R) (r : R) (ys : List R)
      → is_before (key x) (key r) ≡ true
      → All (λ y. is_before (key y) (key x) ≡ true) ys
      → All (λ y. is_before (key y) (key r) ≡ true) ys
  before_trans x r ys e h = All-map (λ y k. ground (arith, e, k)) ys h

  insert_newest-IsNewestFirst :
      (r : R) (xs : List R)
      → All (λ s. same_id r s ≡ false) xs
      → IsNewestFirst xs
      → IsNewestFirst (insert_newest key r xs)
  insert_newest-IsNewestFirst r [] d h = (tt, tt)
  insert_newest-IsNewestFirst r (x ∷ xs) d h = elim (Bool-cases (is_before (key x) (key r))) [
    | inl newer ↦ rw newer ((newer, before_trans x r xs newer h.0), h)
    | inr older ↦ rw older (
      All-insert_newest (λ y. is_before (key y) (key x) ≡ true) r xs (ground (arith, older, d.0))
          h.0,
      insert_newest-IsNewestFirst r xs d.1 h.1,
    )
  ]

  pub newest_first-IsNewestFirst :
      (rs : List R) → Apart same_id rs → IsNewestFirst (newest_first key rs)
  newest_first-IsNewestFirst [] h = tt
  newest_first-IsNewestFirst (r ∷ rs) h =
      insert_newest-IsNewestFirst r (newest_first key rs)
        (All-newest_first (λ s. same_id r s ≡ false) rs h.0) (newest_first-IsNewestFirst rs h.1)

  insert_newest-head :
      (r : R) (xs : List R)
      → All (λ y. is_before (key y) (key r) ≡ true) xs
      → insert_newest key r xs ≡ r ∷ xs
  insert_newest-head r [] h = refl
  insert_newest-head r (x ∷ xs) h = rw h.0 refl

  select-insert_newest :
      (p : R → Bool) (r : R) (xs : List R)
      → IsNewestFirst xs
      → select p (insert_newest key r xs)
        ≡ (if p r then insert_newest key r (select p xs) else select p xs)
  select-insert_newest p r [] h = ground arith
  select-insert_newest p r (x ∷ xs) h = elim (Bool-cases (is_before (key x) (key r))) [
    | inl newer ↦
        let front : insert_newest key r (select p xs) ≡ r ∷ select p xs =
          insert_newest-head r (select p xs) (
            All-select (λ y. is_before (key y) (key r) ≡ true) p xs
              (before_trans x r xs newer h.0)) in
        ground (arith, newer, front)
    | inr older ↦ ground (arith, older, select-insert_newest p r xs h.1)
  ]

  pub select-newest_first :
      (p : R → Bool) (rs : List R)
      → Apart same_id rs
      → select p (newest_first key rs) ≡ newest_first key (select p rs)
  select-newest_first p [] h = refl
  select-newest_first p (r ∷ rs) h = ground (
    arith,
    select-insert_newest p r (newest_first key rs) (newest_first-IsNewestFirst rs h.1),
    select-newest_first p rs h.1,
  )

  select_every : (p : R → Bool) (ys : List R) → All (λ y. p y ≡ true) ys → select p ys ≡ ys
  select_every p [] h = refl
  select_every p (y ∷ ys) h = ground (arith, h.0, select_every p ys h.1)

  pub All-middle : (P : R → Type 0) (xs : List R) (x : R) (ys : List R) → All P (xs ++ x ∷ ys) → P x
  All-middle P [] x ys h = h.0
  All-middle P (z ∷ xs) x ys h = All-middle P xs x ys h.1

  -- What comes after a row, in order.
  pub select-suffix :
      (xs : List R) (x : R) (ys : List R)
      → IsNewestFirst (xs ++ x ∷ ys)
      → select (λ y. is_before (key y) (key x)) (xs ++ x ∷ ys) ≡ ys
  select-suffix [] x ys h = ground (arith, select_every (λ y. is_before (key y) (key x)) ys h.0)
  select-suffix (z ∷ xs) x ys h = ground (
    arith,
    All-middle (λ y. is_before (key y) (key z) ≡ true) xs x ys h.0,
    select-suffix xs x ys h.1,
  )
