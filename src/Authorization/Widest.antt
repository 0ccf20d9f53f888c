-- ===== src/Authorization/Widest.antt =====
-- The dictionary that `_widest` of app/core/authorization.py folds, against the list of the grants.
use mathlib.Core.Path.{ap₂}
use fastapi_template.Prelude.{
  ◌≡◌, refl, sym, ◌∙◌, ap, Option, none, some, Bool, true, false, ◌&&◌, ◌||◌, List, [], ◌∷◌, ◌++◌,
  any, any-append, arith, eq_iff, if◌then◌else◌, Bool-cases, inl, inr,
}
use fastapi_template.Models.{Scope, own, all, is_all, RolePermission, Role, User}
use fastapi_template.Authorization.{
  Key, key_eq, key_of, Widest, get, put, widen, widen_grants, widen_roles, widest,
}

-- The grants of some roles, in order.
abbrev pub grants_of : List Role → List RolePermission
grants_of [] = []
grants_of (role ∷ rest) = role.grants ++ grants_of rest

abbrev pub names : Key → RolePermission → Bool
names k g = key_eq (key_of g) k

abbrev pub names_all : Key → RolePermission → Bool
names_all k g = key_eq (key_of g) k && is_all g.scope

-- The wider scope wins: `all` if one grant has it, `own` if there is another grant.
abbrev pub strongest : Bool → Bool → Option Scope
strongest true granted = some all
strongest false true = some own
strongest false false = none

get-put :
    (k j : Key) (s : Scope) (w : Widest)
    → get j (put k s w) ≡ (if key_eq k j then some s else get j w)
unfolding get put
get-put k j s [] = refl
get-put (kr, ka) (jr, ja) s (((ir, ia), t) ∷ w) = ground (
  arith,
  get-put (kr, ka) (jr, ja) s w,
  eq_iff ir kr,
  eq_iff ia ka,
  eq_iff ir jr,
  eq_iff ia ja,
  eq_iff kr jr,
  eq_iff ka ja,
)

get_congruent : (j k : Key) (w : Widest) → key_eq j k ≡ true → get j w ≡ get k w
get_congruent (r, a) (s, b) w h =
    let e : (r, a) ≡ (s, b) = ground (arith, eq_iff r s, eq_iff a b) in ap (λ i. get i w) e

-- One round of the loop at one key.
get-widen :
    (k : Key) (w : Widest) (g : RolePermission) (seen_all seen : Bool)
    → get k w ≡ strongest seen_all seen
    → get k (widen w g) ≡ strongest (seen_all || names_all k g) (seen || names k g)
unfolding widen
get-widen k w g seen_all seen h = elim (Bool-cases (key_eq (key_of g) k)) [
  | inl same ↦
      ground (arith, get-put (key_of g) k g.scope w, get_congruent (key_of g) k w same, h, same)
  | inr other ↦ ground (arith, get-put (key_of g) k g.scope w, h, other)
]

or_assoc : (a b c : Bool) → ((a || b) || c) ≡ (a || (b || c))
or_assoc true b c = refl
or_assoc false b c = refl

or_any {ℓ} :
    {A : Type ℓ} (a : Bool) (p : A → Bool) (xs ys : List A)
    → ((a || any p xs) || any p ys) ≡ (a || any p (xs ++ ys))
or_any a p xs ys = or_assoc a _ _ ∙ ap (λ b. a || b) (sym (any-append p xs ys))

get-widen_grants :
    (k : Key) (w : Widest) (gs : List RolePermission) (seen_all seen : Bool)
    → get k w ≡ strongest seen_all seen
    → get k (widen_grants w gs)
      ≡ strongest (seen_all || any (names_all k) gs) (seen || any (names k) gs)
unfolding widen_grants
get-widen_grants k w [] true seen h = h
get-widen_grants k w [] false true h = h
get-widen_grants k w [] false false h = h
get-widen_grants k w (g ∷ gs) seen_all seen h =
    get-widen_grants k (widen w g) gs (seen_all || names_all k g) (seen || names k g)
      (get-widen k w g seen_all seen h)
    ∙ ap₂ strongest (or_assoc seen_all _ _) (or_assoc seen _ _)

get-widen_roles :
    (k : Key) (w : Widest) (rs : List Role) (seen_all seen : Bool)
    → get k w ≡ strongest seen_all seen
    → get k (widen_roles w rs)
      ≡ strongest
          (seen_all || any (names_all k) (grants_of rs))
          (seen || any (names k) (grants_of rs))
unfolding widen_roles widen_grants
get-widen_roles k w [] seen_all seen h = get-widen_grants k w [] seen_all seen h
get-widen_roles k w (r ∷ rs) seen_all seen h =
    get-widen_roles k (widen_grants w r.grants) rs (seen_all || any (names_all k) r.grants)
      (seen || any (names k) r.grants) (get-widen_grants k w r.grants seen_all seen h)
    ∙ ap₂ strongest (or_any seen_all (names_all k) r.grants (grants_of rs))
        (or_any seen (names k) r.grants (grants_of rs))

-- The dictionary answers with the widest scope that some grant names.
pub get-widest :
    (k : Key) (user : User)
    → get k (widest user)
      ≡ strongest (any (names_all k) (grants_of user.roles)) (any (names k) (grants_of user.roles))
unfolding widest
get-widest k user = get-widen_roles k [] user.roles false false refl
