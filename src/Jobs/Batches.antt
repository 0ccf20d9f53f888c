-- ===== src/Jobs/Batches.antt =====
-- One batch of `_delete_batch_before` of app/repositories/base.py.
use fastapi_template.Prelude.{
  ℕ, zero, suc, ◌+◌, ◌≤◌, ◌<◌, ◌≡◌, refl, ap, ◌∙◌, inl, inr, Bool, true, false, not, ◌&&◌, List, [],
  ◌∷◌, arith, ltb, leb, ◌==◌, Bool-cases, length, take, any, All, All-map, select, delete, count,
  insert_by, order_by,
}
use fastapi_template.Repositories.Base.{doomed, is_hit}

module _ {R : Type 0} where
  count-insert_by :
      (p : R → Bool) (f : R → ℕ) (r : R) (rs : List R)
      → count p (insert_by f r rs) ≡ count p (r ∷ rs)
  count-insert_by p f r [] = refl
  count-insert_by p f r (x ∷ xs) = ground (arith, count-insert_by p f r xs)

  count-order_by : (p : R → Bool) (f : R → ℕ) (rs : List R) → count p (order_by f rs) ≡ count p rs
  count-order_by p f [] = refl
  count-order_by p f (r ∷ rs) =
      ground (arith, count-insert_by p f r (order_by f rs), count-order_by p f rs)

  count-select : (p q : R → Bool) (rs : List R) → count p (select q rs) ≤ count p rs
  count-select p q [] = omega arith
  count-select p q (r ∷ rs) = ground (arith, count-select p q rs)

  count-take : (p : R → Bool) (n : ℕ) (rs : List R) → count p (take n rs) ≤ count p rs
  count-take p zero rs = omega arith
  count-take p (suc n) [] = omega arith
  count-take p (suc n) (r ∷ rs) = ground (arith, count-take p n rs)

  count-All : (p : R → Bool) (rs : List R) → All (λ r. p r ≡ true) rs → count p rs ≡ length rs
  count-All p [] h = refl
  count-All p (r ∷ rs) h = ground (arith, h.0, count-All p rs h.1)

  pub count-delete : (p : R → Bool) (rs : List R) → count p rs + length (delete p rs) ≡ length rs
  count-delete p [] = refl
  count-delete p (r ∷ rs) = ground (arith, count-delete p rs)

  length-insert_by : (f : R → ℕ) (r : R) (rs : List R) → length (insert_by f r rs) ≡ suc (length rs)
  length-insert_by f r [] = refl
  length-insert_by f r (x ∷ xs) = ground (arith, length-insert_by f r xs)

  length-order_by : (f : R → ℕ) (rs : List R) → length (order_by f rs) ≡ length rs
  length-order_by f [] = refl
  length-order_by f (r ∷ rs) =
      ground (arith, length-insert_by f r (order_by f rs), length-order_by f rs)

  length-take : (n : ℕ) (rs : List R) → n ≤ length rs → length (take n rs) ≡ n
  length-take zero rs h = refl
  length-take (suc n) [] h = absurd (omega (arith, h))
  length-take (suc n) (r ∷ rs) h = ap suc (length-take n rs (omega (arith, h)))

  take-whole : (n : ℕ) (rs : List R) → length rs ≤ n → take n rs ≡ rs
  take-whole zero [] h = refl
  take-whole zero (r ∷ rs) h = absurd (omega (arith, h))
  take-whole (suc n) [] h = refl
  take-whole (suc n) (r ∷ rs) h = ap (λ l. r ∷ l) (take-whole n rs (omega (arith, h)))

  any-insert_by :
      (p : R → Bool) (f : R → ℕ) (r : R) (rs : List R) → any p (insert_by f r rs) ≡ any p (r ∷ rs)
  any-insert_by p f r [] = refl
  any-insert_by p f r (x ∷ xs) = ground (arith, any-insert_by p f r xs)

  any-order_by : (p : R → Bool) (f : R → ℕ) (rs : List R) → any p (order_by f rs) ≡ any p rs
  any-order_by p f [] = refl
  any-order_by p f (r ∷ rs) =
      ground (arith, any-insert_by p f r (order_by f rs), any-order_by p f rs)

module _ {R : Type 0} (id_of moment : R → ℕ) where
  -- Each row of a list is hit by the list.
  hits-weaken :
      (r : R) (chosen rs : List R)
      → All (λ d. is_hit id_of chosen d ≡ true) rs
      → All (λ d. is_hit id_of (r ∷ chosen) d ≡ true) rs
  hits-weaken r chosen rs h = All-map (λ d e. ground (arith, e)) rs h

  hits_itself : (rs : List R) → All (λ d. is_hit id_of rs d ≡ true) rs
  hits_itself [] = tt
  hits_itself (r ∷ rs) = (ground arith, hits-weaken r rs rs (hits_itself rs))

  module _ (cutoff batch_size : ℕ) where
    abbrev is_old : R → Bool
    is_old r = ltb (moment r) cutoff

    -- A row that is old is hit by the old rows.
    old-hit :
        (rs : List R) → All (λ r. (is_old r && not (is_hit id_of (select is_old rs) r)) ≡ false) rs
    old-hit [] = tt
    old-hit (r ∷ rs) = elim (Bool-cases (is_old r)) [
      | inl old ↦ (ground (arith, old), All-map (λ d e. ground (arith, old, e)) rs (old-hit rs))
      | inr young ↦
          (ground (arith, young), All-map (λ d e. ground (arith, young, e)) rs (old-hit rs))
    ]

    abbrev hit_in : List R → R → Bool
    hit_in rs = is_hit id_of (doomed id_of moment cutoff batch_size rs)

    -- A batch that is not full has hit every old row.
    pub batch-full :
        (rs : List R)
        → count (hit_in rs) rs < batch_size
        → All (λ r. (is_old r && not (hit_in rs r)) ≡ false) rs
    batch-full rs h =
        let s : List R = select is_old rs in
        let o : List R = order_by id_of s in
        elim (Bool-cases (leb (length o) batch_size)) [
          | inl short ↦
              let same : (r : R) → hit_in rs r ≡ is_hit id_of s r = λ r.
                rw (take-whole batch_size o (ground (arith, short)))
                  (any-order_by (λ d. id_of d == id_of r) id_of s) in
              All-map (λ r e. ground (arith, same r, e)) rs (old-hit rs)
          | inr long ↦
              let full : count (hit_in rs) (take batch_size o) ≡ batch_size =
                count-All (hit_in rs) (take batch_size o) (hits_itself (take batch_size o))
                ∙ length-take batch_size o (ground (arith, long)) in
              absurd (
                omega (
                  arith,
                  h,
                  full,
                  count-take (hit_in rs) batch_size o,
                  count-order_by (hit_in rs) id_of s,
                  count-select (hit_in rs) is_old rs,
                ))
        ]

    -- What a batch leaves.
    pub left-young :
        (rs : List R)
        → All (λ r. (is_old r && not (hit_in rs r)) ≡ false) rs
        → All (λ r. cutoff ≤ moment r) (delete (hit_in rs) rs)
    left-young rs h = go (hit_in rs) rs h
      where
        go :
            (p : R → Bool) (xs : List R)
            → All (λ r. (is_old r && not (p r)) ≡ false) xs
            → All (λ r. cutoff ≤ moment r) (delete p xs)
        go p [] k = tt
        go p (x ∷ xs) k = elim (Bool-cases (p x)) [
          | inl hit ↦ rw hit (go p xs k.1)
          | inr missed ↦ rw missed (ground (arith, missed, k.0), go p xs k.1)
        ]
