-- ===== src/Prelude/Members.antt =====
-- Members of lists, with the Boolean queries on them.
use mathlib.Core.Path.{◌≡◌, refl}
use mathlib.Core.Logic.{inl, inr}
use mathlib.Core.Bool.{Bool, true}
use mathlib.Core.List.Memᴰ
use mathlib.Core.List.{List, [], ◌∷◌, map, Memᴰ}
use native.Mathlib.Omega.{arith}
use fastapi_template.Prelude.Tests.{if◌then◌else◌, Bool-cases}
use fastapi_template.Prelude.Lists.{any}
use fastapi_template.Prelude.Rows.{select, update}

module _ {R : Type 0} where
  pub any_witness :
      (p : R → Bool) (rs : List R) → any p rs ≡ true → (r : R) × Memᴰ r rs × (p r ≡ true)
  any_witness p [] h = cc
  any_witness p (r ∷ rs) h = elim (Bool-cases (p r)) [
    | inl here ↦ (r, Memᴰ.head refl, here)
    | inr other ↦ let (s, m, q) = any_witness p rs (ground arith) in (s, Memᴰ.tail m, q)
  ]

  pub any_intro : (p : R → Bool) (rs : List R) (r : R) → Memᴰ r rs → p r ≡ true → any p rs ≡ true
  any_intro p [] r m h = elim m [ ]
  any_intro p (s ∷ rs) r (Memᴰ.head e) h = ground arith
  any_intro p (s ∷ rs) r (Memᴰ.tail m) h = ground (arith, any_intro p rs r m h)

  pub select_intro :
      (p : R → Bool) (rs : List R) (r : R) → Memᴰ r rs → p r ≡ true → Memᴰ r (select p rs)
  select_intro p [] r m h = elim m [ ]
  select_intro p (s ∷ rs) r (Memᴰ.head e) h = rw (← e) (rw h (Memᴰ.head refl))
  select_intro p (s ∷ rs) r (Memᴰ.tail m) h = elim (Bool-cases (p s)) [
    | inl wanted ↦ rw wanted (Memᴰ.tail (select_intro p rs r m h))
    | inr other ↦ rw other (select_intro p rs r m h)
  ]

  pub select_elim :
      (p : R → Bool) (rs : List R) (r : R) → Memᴰ r (select p rs) → Memᴰ r rs × (p r ≡ true)
  select_elim p [] r m = elim m [ ]
  select_elim p (s ∷ rs) r m = elim (Bool-cases (p s)) [
    | inl wanted ↦ elim (Memᴰ.cases_cons (rw wanted at m)) [
      | inl e ↦ (Memᴰ.head e, rw e wanted)
      | inr n ↦ let (k, h) = select_elim p rs r n in (Memᴰ.tail k, h)
    ]
    | inr other ↦ let (k, h) = select_elim p rs r (rw other at m) in (Memᴰ.tail k, h)
  ]

  -- A write keeps a query that holds somewhere, if it keeps it for each row.
  pub any-update :
      (q p : R → Bool) (f : R → R) (rs : List R)
      → ((r : R) → q r ≡ true → q (if p r then f r else r) ≡ true)
      → any q rs ≡ true
      → any q (update p f rs) ≡ true
  any-update q p f [] keep h = h
  any-update q p f (r ∷ rs) keep h = elim (Bool-cases (q r)) [
    | inl here ↦ ground (arith, keep r here)
    | inr other ↦ ground (arith, any-update q p f rs keep)
  ]

pub map_intro : {A B : Type 0} (f : A → B) (xs : List A) (x : A) → Memᴰ x xs → Memᴰ (f x) (map f xs)
map_intro f [] x m = elim m [ ]
map_intro f (y ∷ xs) x (Memᴰ.head e) = Memᴰ.head (rw e)
map_intro f (y ∷ xs) x (Memᴰ.tail m) = Memᴰ.tail (map_intro f xs x m)
