-- ===== src/Repositories/Unique/Keys.antt =====
-- Rows that a constraint keeps apart.
use fastapi_template.Prelude.{
  ◌≡◌, refl, inl, inr, Bool, true, false, not, ◌&&◌, some, List, [], ◌∷◌, ◌++◌, arith,
  if◌then◌else◌, Bool-cases, is_some, any, All, All-append, select, update, first, All-select,
}
use fastapi_template.Errors.{ok}
use fastapi_template.Repositories.Base.{one_or_none}
use mathlib.Core.Path.{subst}

-- No row clashes with a later one.
abbrev pub Apart : {R : Type 0} → (R → R → Bool) → List R → Type 0
Apart c [] = Unit
Apart c (r ∷ rs) = All (λ s. c r s ≡ false) rs × Apart c rs

module _ {R : Type 0} (c : R → R → Bool) (p : R → Bool) where
  -- Two rows that a query asks for clash.
  abbrev pub Separates : Type 0
  Separates = (r s : R) → p r ≡ true → p s ≡ true → c r s ≡ true

  pub select-apart :
      (r : R) (rs : List R)
      → Separates
      → p r ≡ true
      → All (λ s. c r s ≡ false) rs
      → select p rs ≡ []
  select-apart r [] sep pr h = refl
  select-apart r (s ∷ rs) sep pr h = ground (arith, select-apart r rs sep pr h.1, sep r s pr)

  pub one_or_none-select :
      (rs : List R) → Separates → Apart c rs → one_or_none (select p rs) ≡ ok (first (select p rs))
  one_or_none-select [] sep h = refl
  one_or_none-select (r ∷ rs) sep h = elim (Bool-cases (p r)) [
    | inl wanted ↦ rw (wanted, select-apart r rs sep wanted h.0)
    | inr other ↦ rw other (one_or_none-select rs sep h.1)
  ]

module _ {R : Type 0} (p : R → Bool) where
  pub is_some-first-select : (rs : List R) → is_some (first (select p rs)) ≡ any p rs
  is_some-first-select [] = refl
  is_some-first-select (r ∷ rs) = ground (arith, is_some-first-select rs)

  pub first-select_holds : (rs : List R) (r : R) → first (select p rs) ≡ some r → p r ≡ true
  first-select_holds [] r h = cc
  first-select_holds (s ∷ rs) r h = elim (Bool-cases (p s)) [
    | inl wanted ↦ ground (arith, wanted)
    | inr other ↦ first-select_holds rs r (ground arith)
  ]

module _ {R : Type 0} (c : R → R → Bool) where
  pub Apart-append :
      (rs : List R) (r : R) → Apart c rs → All (λ s. c s r ≡ false) rs → Apart c (rs ++ r ∷ [])
  Apart-append [] r h k = (tt, tt)
  Apart-append (s ∷ rs) r h k =
      (All-append (λ o. c s o ≡ false) rs (r ∷ []) h.0 (k.0, tt), Apart-append rs r h.1 k.1)

  -- A write that keeps every pair apart.
  pub Apart-update :
      (p : R → Bool) (f : R → R) (rs : List R)
      → ((r s : R) → c r s ≡ false → c (if p r then f r else r) (if p s then f s else s) ≡ false)
      → Apart c rs
      → Apart c (update p f rs)
  Apart-update p f [] keep h = tt
  Apart-update p f (r ∷ rs) keep h = (each r rs h.0, Apart-update p f rs keep h.1)
    where
      each :
          (r : R) (rs : List R)
          → All (λ s. c r s ≡ false) rs
          → All (λ s. c (if p r then f r else r) s ≡ false) (update p f rs)
      each r [] h = tt
      each r (s ∷ rs) h = (keep r s h.0, each r rs h.1)

-- The UPDATE of one row, which the unique index has checked against the others.
module _ {R : Type 0} (c d : R → R → Bool) (p : R → Bool) (new : R)
    (symmetric : (r s : R) → c r s ≡ c s r)
    (alone : (r s : R) → p r ≡ true → p s ≡ true → d r s ≡ true) where
  replace-free :
      (rs : List R)
      → All (λ s. (not (p s) && c new s) ≡ false) rs
      → All (λ s. p s ≡ false) rs
      → All (λ s. c new s ≡ false) (update p (λ s. new) rs)
  replace-free [] h k = tt
  replace-free (s ∷ rs) h k = (ground (arith, h.0, k.0), replace-free rs h.1 k.1)

  replace-other :
      (r : R) (rs : List R)
      → c new r ≡ false
      → All (λ s. c r s ≡ false) rs
      → All (λ s. c r s ≡ false) (update p (λ s. new) rs)
  replace-other r [] e h = tt
  replace-other r (s ∷ rs) e h = (ground (arith, symmetric r new, h.0), replace-other r rs e h.1)

  rest_differs :
      (r : R) (rs : List R) → p r ≡ true → All (λ s. d r s ≡ false) rs → All (λ s. p s ≡ false) rs
  rest_differs r [] e h = tt
  rest_differs r (s ∷ rs) e h = (ground (arith, alone r s e, h.0), rest_differs r rs e h.1)

  pub Apart-replace :
      (rs : List R)
      → All (λ s. (not (p s) && c new s) ≡ false) rs
      → Apart d rs
      → Apart c rs
      → Apart c (update p (λ s. new) rs)
  Apart-replace [] h ids k = tt
  Apart-replace (r ∷ rs) h ids k = elim (Bool-cases (p r)) [
    | inl mine ↦
        rw mine (replace-free rs h.1 (rest_differs r rs mine ids.0), Apart-replace rs h.1 ids.1 k.1)
    | inr other ↦
        rw other
          (replace-other r rs (ground (arith, h.0, other)) k.0, Apart-replace rs h.1 ids.1 k.1)
  ]

pub All-update :
    {R : Type 0} (P : R → Type 0) (p : R → Bool) (f : R → R) (rs : List R)
    → ((r : R) → P r → P (if p r then f r else r))
    → All P rs
    → All P (update p f rs)
All-update P p f [] keep h = tt
All-update P p f (r ∷ rs) keep h = (keep r h.0, All-update P p f rs keep h.1)

pub All-first :
    {R : Type 0} (P : R → Type 0) (q : R → Bool) (rs : List R) (e : R)
    → All P rs
    → first (select q rs) ≡ some e
    → P e
All-first P q [] e h k = absurd (cc)
All-first P q (r ∷ rs) e h k = elim (Bool-cases (q r)) [
  | inl wanted ↦ let same : r ≡ e = ground arith in subst P same h.0
  | inr other ↦ All-first P q rs e h.1 (ground arith)
]

pub Apart-select :
    {R : Type 0} (c : R → R → Bool) (p : R → Bool) (rs : List R)
    → Apart c rs
    → Apart c (select p rs)
Apart-select c p [] h = tt
Apart-select c p (r ∷ rs) h = elim (Bool-cases (p r)) [
  | inl wanted ↦ rw wanted (All-select (λ s. c r s ≡ false) p rs h.0, Apart-select c p rs h.1)
  | inr other ↦ rw other (Apart-select c p rs h.1)
]
