-- ===== src/Repositories/Unique/Writes.antt =====
-- What a query finds after a write of the row that a query found.
use fastapi_template.Prelude.{
  ◌≡◌, refl, inl, inr, Bool, true, false, some, List, [], ◌∷◌, arith, Bool-cases, All, select,
  update, delete, first,
}
use fastapi_template.Repositories.Unique.Keys.{Apart, Separates, select-apart, All-first}

-- The row that a query finds, after a write of that row.
module _ {R : Type 0} (c : R → R → Bool) (p q : R → Bool) (f : R → R) where
  pub first-update :
      (rs : List R) (e : R)
      → Separates c p
      → Apart c rs
      → first (select q rs) ≡ some e
      → p e ≡ true
      → q (f e) ≡ true
      → first (select q (update p f rs)) ≡ some (f e)
  first-update [] e sep h k pe qe = absurd (cc)
  first-update (r ∷ rs) e sep h k pe qe = elim (Bool-cases (q r)) [
    | inl wanted ↦ ground arith
    | inr other ↦ ground (
      arith,
      other,
      first-update rs e sep h.1 (ground arith) pe qe,
      sep r e,
      All-first (λ s. c r s ≡ false) q rs e h.0 (ground arith),
    )
  ]

module _ {R : Type 0} (c : R → R → Bool) (p q : R → Bool) where
  none-delete : (rs : List R) → select q rs ≡ [] → select q (delete p rs) ≡ []
  none-delete [] h = refl
  none-delete (r ∷ rs) h = ground (arith, none-delete rs)

  -- The one row that a query finds, deleted.
  pub select-delete :
      (rs : List R) (e : R)
      → Separates c q
      → Apart c rs
      → first (select q rs) ≡ some e
      → p e ≡ true
      → select q (delete p rs) ≡ []
  select-delete [] e sep h k pe = refl
  select-delete (r ∷ rs) e sep h k pe = elim (Bool-cases (q r)) [
    | inl wanted ↦ ground (arith, wanted, none-delete rs (select-apart c q r rs sep wanted h.0))
    | inr other ↦ ground (arith, other, select-delete rs e sep h.1 (ground arith) pe)
  ]

-- A write of the one row that a wide query finds, after which no row answers a narrower one.
module _ {R : Type 0} (c : R → R → Bool) (p q wide : R → Bool) (f : R → R)
    (written : (r : R) → q (f r) ≡ false) (narrow : (r : R) → wide r ≡ false → q r ≡ false) where
  none_left : (rs : List R) → select wide rs ≡ [] → select q (update p f rs) ≡ []
  none_left [] h = refl
  none_left (r ∷ rs) h = ground (arith, none_left rs, written r, narrow r)

  pub select-update_unique :
      (rs : List R) (e : R)
      → Separates c wide
      → Apart c rs
      → first (select wide rs) ≡ some e
      → p e ≡ true
      → select q (update p f rs) ≡ []
  select-update_unique [] e sep h k pe = refl
  select-update_unique (r ∷ rs) e sep h k pe = elim (Bool-cases (wide r)) [
    | inl wanted ↦
        ground (arith, wanted, written r, none_left rs (select-apart c wide r rs sep wanted h.0))
    | inr other ↦
        ground
          (arith, other, written r, narrow r, select-update_unique rs e sep h.1 (ground arith) pe)
  ]

-- A write after which a row answers no more keeps a query without an answer.
pub select-update_stays :
    {R : Type 0} (q p : R → Bool) (f : R → R) (rs : List R)
    → ((r : R) → q (f r) ≡ false)
    → select q rs ≡ []
    → select q (update p f rs) ≡ []
select-update_stays q p f [] w h = refl
select-update_stays q p f (r ∷ rs) w h = ground (arith, w r, select-update_stays q p f rs w)

-- The UPDATE of the one row that a query finds, which another query does not see.
module _ {R : Type 0} (c : R → R → Bool) (p q wide : R → Bool) (f : R → R) where
  update-absent :
      (r : R) (rs : List R)
      → Separates c p
      → p r ≡ true
      → All (λ s. c r s ≡ false) rs
      → update p f rs ≡ rs
  update-absent r [] sep pr h = refl
  update-absent r (s ∷ rs) sep pr h = ground (arith, update-absent r rs sep pr h.1, sep r s pr, h.0)

  pub select-update_only :
      (rs : List R) (e : R)
      → Separates c p
      → Apart c rs
      → first (select wide rs) ≡ some e
      → p e ≡ true
      → q e ≡ false
      → q (f e) ≡ false
      → select q (update p f rs) ≡ select q rs
  select-update_only [] e sep h k pe qe qf = refl
  select-update_only (r ∷ rs) e sep h k pe qe qf = elim (Bool-cases (wide r)) [
    | inl wanted ↦
        let same : r ≡ e = ground (arith, wanted, k) in
        let mine : p r ≡ true = rw same pe in
        ground (arith, mine, same, qe, qf, update-absent r rs sep mine h.0)
    | inr other ↦ ground (
      arith,
      other,
      select-update_only rs e sep h.1 (ground arith) pe qe qf,
      sep r e,
      All-first (λ s. c r s ≡ false) wide rs e h.0 (ground arith),
    )
  ]
