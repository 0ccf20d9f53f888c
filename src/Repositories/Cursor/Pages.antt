-- ===== src/Repositories/Cursor/Pages.antt =====
-- A walk over pages by cursor meets every row once, in order.
use fastapi_template.Prelude.{
  ℕ, zero, suc, ◌+◌, ◌≤◌, ◌<◌, String, ◌≡◌, refl, sym, ap, ◌∙◌, ◌⊎◌, inl, inr, Bool, true, false,
  ◌&&◌, Option, none, some, List, [], ◌∷◌, ◌++◌, append_assoc, arith, leb, Bool-cases, length, take,
  All, All-map, select, All-select_holds,
}
use fastapi_template.Errors.{ok}
use fastapi_template.Repositories.Cursor.{
  CursorCodec, is_before, after_key, cursor_condition, newest_first, matching, page_of, last_of,
  cursor_slice,
}
use fastapi_template.Repositories.Unique.{Apart, Apart-select}
use fastapi_template.Repositories.Cursor.Order.{
  IsNewestFirst, same_id, All-newest_first, newest_first-IsNewestFirst, select-newest_first,
  All-middle, select-suffix,
}
use mathlib.Core.Path.{subst}

select-select :
    {R : Type 0} (f g h : R → Bool) (rs : List R)
    → ((r : R) → (g r && f r) ≡ h r)
    → select f (select g rs) ≡ select h rs
select-select f g h [] e = refl
select-select f g h (r ∷ rs) e = ground (arith, e r, select-select f g h rs e)

take-append : {R : Type 0} (xs ys : List R) → take (length xs) (xs ++ ys) ≡ xs
take-append [] ys = refl
take-append (x ∷ xs) ys = ap (λ rest. x ∷ rest) (take-append xs ys)

take-all : {R : Type 0} (n : ℕ) (xs : List R) → length xs ≤ n → take n xs ≡ xs
take-all zero [] h = refl
take-all zero (x ∷ xs) h = absurd (omega (arith, h))
take-all (suc n) [] h = refl
take-all (suc n) (x ∷ xs) h = ap (λ rest. x ∷ rest) (take-all n xs (omega (arith, h)))

take-take : {R : Type 0} (n : ℕ) (xs : List R) → take n (take (suc n) xs) ≡ take n xs
take-take zero xs = refl
take-take (suc n) [] = refl
take-take (suc n) (x ∷ xs) = ap (λ rest. x ∷ rest) (take-take n xs)

-- A list that is longer than a page, cut behind the page's last row.
pub record IsCut {R : Type 0} (n : ℕ) (rs : List R) : Type 0 where
  pub front : List R
  pub last : R
  pub rest : List R
  pub whole : rs ≡ front ++ last ∷ rest
  pub page : take n rs ≡ front ++ last ∷ []
  pub more : length (take (suc n) rs) ≡ suc n
  pub full : length (front ++ last ∷ []) ≡ n

cut : {R : Type 0} (n : ℕ) (rs : List R) → suc n < length rs → IsCut (suc n) rs
cut n [] h = absurd (omega (arith, h))
cut zero (r ∷ []) h = absurd (omega (arith, h))
cut zero (r ∷ s ∷ rs) h = record {
  front = [];
  last = r;
  rest = s ∷ rs;
  whole = refl;
  page = refl;
  more = refl;
  full = refl;
}
cut (suc n) (r ∷ rs) h =
    let c : IsCut (suc n) rs = cut n rs (omega (arith, h)) in
    record {
      front = r ∷ c.front;
      last = c.last;
      rest = c.rest;
      whole = ap (λ l. r ∷ l) c.whole;
      page = ap (λ l. r ∷ l) c.page;
      more = ap suc c.more;
      full = ap suc c.full;
    }

after_trans :
    (c : Option (ℕ × ℕ)) (a b : ℕ × ℕ)
    → after_key c b ≡ true
    → is_before a b ≡ true
    → after_key c a ≡ true
after_trans none a b h k = refl
after_trans (some c) a b h k = ground (arith, h, k)

module _ {R : Type 0} (key : R → ℕ × ℕ) where
  last_of-append : (xs : List R) (x : R) → last_of key (xs ++ x ∷ []) ≡ some x
  last_of-append [] x = refl
  last_of-append (z ∷ []) x = refl
  last_of-append (z ∷ y ∷ xs) x = last_of-append (y ∷ xs) x

  module _ (p : R → Bool) (c : Option (ℕ × ℕ)) (rows : List R)
      (unique : Apart (same_id key) rows) where
    abbrev wanted : R → Bool
    wanted r = p r && after_key c (key r)

    chosen-Apart : Apart (same_id key) (select wanted rows)
    chosen-Apart = Apart-select (same_id key) wanted rows unique

    ordered : IsNewestFirst key (matching key p c rows)
    ordered = newest_first-IsNewestFirst key (select wanted rows) chosen-Apart

    All-after : All (λ r. after_key c (key r) ≡ true) (matching key p c rows)
    All-after =
        All-newest_first key (λ r. after_key c (key r) ≡ true) (select wanted rows)
          (All-map (λ r h. ground (arith, h)) (select wanted rows) (All-select_holds wanted rows))

    narrower :
        (x r : R)
        → after_key c (key x) ≡ true
        → (wanted r && is_before (key r) (key x)) ≡ (p r && is_before (key r) (key x))
    narrower x r h = elim (Bool-cases (is_before (key r) (key x))) [
      | inr later ↦ rw later (ground arith)
      | inl earlier ↦ ground (arith, earlier, after_trans c (key r) (key x) h earlier)
    ]

    -- What a cursor of a row leaves is what came after the row.
    matching-after :
        (front : List R) (last : R) (rest : List R)
        → matching key p c rows ≡ front ++ last ∷ rest
        → matching key p (some (key last)) rows ≡ rest
    matching-after front last rest e =
        let f : R → Bool = λ r. is_before (key r) (key last) in
        let last_after : after_key c (key last) ≡ true =
          All-middle key (λ r. after_key c (key r) ≡ true) front last rest
            (subst (λ l. All (λ r. after_key c (key r) ≡ true) l) e All-after) in
        let here : select f (matching key p c rows) ≡ rest =
          rw e (select-suffix key front last rest (subst (λ l. IsNewestFirst key l) e ordered)) in
        sym (
          ap (newest_first key)
            (select-select f wanted (λ r. p r && f r) rows (λ r. narrower last r last_after)))
        ∙ sym (select-newest_first key f (select wanted rows) chosen-Apart)
        ∙ here

    module _ (codec : CursorCodec) (n : ℕ) where
      -- A page is all that is left, or the rows up to the one whose key is the next cursor; what a query
      -- with that cursor matches is what comes after the page.
      abbrev pub IsPage : List R × Option String → Type 0
      IsPage (page, next) =
          ((next ≡ none) × (page ≡ matching key p c rows))
          ⊎ ((k : ℕ × ℕ) × (next ≡ some (codec.encode k))
              × (cursor_condition codec next ≡ ok (some k))
              × (length page ≡ suc n)
              × (matching key p c rows ≡ page ++ matching key p (some k) rows))

      pub cursor_slice-IsPage :
          IsPage (cursor_slice key codec (page_of key p c (suc n) rows) (suc n))
      unfolding cursor_slice cursor_condition
      cursor_slice-IsPage =
          let rs : List R = matching key p c rows in
          let two : suc n + 1 ≡ suc (suc n) = omega arith in
          elim (Bool-cases (leb (length rs) (suc n))) [
            | inl short ↦
                let all_two : take (suc (suc n)) rs ≡ rs =
                  take-all (suc (suc n)) rs (ground (arith, short)) in
                let all_one : take (suc n) rs ≡ rs = take-all (suc n) rs (ground (arith, short)) in
                rw (two, all_two, all_one, short) (inl (refl, refl))
            | inr long ↦
                let k : IsCut (suc n) rs = cut n rs (ground (arith, long)) in
                let page : take (suc n) (take (suc (suc n)) rs) ≡ k.front ++ k.last ∷ [] =
                  take-take (suc n) rs ∙ k.page in
                let over : leb (length (take (suc (suc n)) rs)) (suc n) ≡ false =
                  rw k.more (ground arith) in
                let rest : matching key p (some (key k.last)) rows ≡ k.rest =
                  matching-after k.front k.last k.rest k.whole in
                rw (two, page, over, last_of-append k.front k.last)
                  (inr (
                    key k.last,
                    refl,
                    rw (codec.decode-encode (key k.last)) refl,
                    k.full,
                    rw rest (k.whole ∙ sym (append_assoc k.front (k.last ∷ []) k.rest)),
                  ))
          ]
