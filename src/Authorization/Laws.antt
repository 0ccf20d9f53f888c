-- ===== src/Authorization/Laws.antt =====
-- The answers of app/core/authorization.py.
use fastapi_template.Prelude.{
  ℕ, ◌≤◌, String, ◌≡◌, ◌≢◌, refl, Option, none, some, Bool, true, ◌||◌, List, [], ◌∷◌, ◌++◌, any,
  any-append, arith, str_eq, Bool-cases, inl, inr, ◌↔◌,
}
use fastapi_template.Models.{Scope, own, all, RolePermission, Role, User, UserRow, admin_role}
use fastapi_template.Authorization.{
  users, impersonate_action, is_superuser, scope_for, outranks, may_impersonate,
}
use fastapi_template.Authorization.Widest.{grants_of, names, names_all, strongest, get-widest}

-- scope_for answers all exactly for a superadmin or an account to which some grant of some role
-- gives all, own where there are only own grants for the key, and nothing without a grant: neither
-- the order of the roles nor that of their grants matters.
pub scope_for-eq-strongest :
    (user : User) (resource action : String)
    → scope_for user resource action
      ≡ strongest
          (is_superuser user || any (names_all (resource, action)) (grants_of user.roles))
          (any (names (resource, action)) (grants_of user.roles))
unfolding scope_for
scope_for-eq-strongest user resource action = ground (arith, get-widest (resource, action) user)

any-grants_of_append :
    (p : RolePermission → Bool) (xs ys : List Role)
    → any p (grants_of (xs ++ ys)) ≡ (any p (grants_of xs) || any p (grants_of ys))
any-grants_of_append p [] ys = refl
any-grants_of_append p (r ∷ rs) ys = ground (
  arith,
  any-append p r.grants (grants_of (rs ++ ys)),
  any-append p r.grants (grants_of rs),
  any-grants_of_append p rs ys,
)

abbrev pub rank : Option Scope → ℕ
rank none = 0
rank (some own) = 1
rank (some all) = 2

-- Adding a role, wherever it stands in the list of roles, never narrows the scope that an account
-- has for a resource and an action.
pub scope_for-add_role :
    (row : UserRow) (before after : List Role) (role : Role) (resource action : String)
    → rank (scope_for (record { row = row; roles = before ++ after }) resource action)
      ≤ rank (scope_for (record { row = row; roles = before ++ role ∷ after }) resource action)
unfolding is_superuser
scope_for-add_role row before after role resource action =
    let k : String × String = (resource, action) in
    let narrow =
      scope_for-eq-strongest (record { row = row; roles = before ++ after }) resource action in
    let wide =
      scope_for-eq-strongest (record { row = row; roles = before ++ role ∷ after }) resource
        action in
    ground (
      arith,
      narrow,
      wide,
      any-grants_of_append (names_all k) before after,
      any-grants_of_append (names_all k) before (role ∷ after),
      any-append (names_all k) role.grants (grants_of after),
      any-grants_of_append (names k) before after,
      any-grants_of_append (names k) before (role ∷ after),
      any-append (names k) role.grants (grants_of after),
      any-append (λ (r : Role). str_eq r.name admin_role) before after,
      any-append (λ (r : Role). str_eq r.name admin_role) before (role ∷ after),
    )

-- Impersonation is allowed exactly to an account that has some scope for it, and towards a
-- superadmin only to a superadmin.
pub may_impersonate_iff :
    (actor target : User)
    → (may_impersonate actor target ≡ true) ↔ (
        (scope_for actor users impersonate_action ≢ none)
        × ((is_superuser target ≡ true) → (is_superuser actor ≡ true)))
unfolding may_impersonate outranks
may_impersonate_iff actor target = (
  λ h. (ground arith, λ e. ground arith),
  λ h. elim (Bool-cases (is_superuser target)) [
    | inl admin ↦ ground (arith, h.1 admin)
    | inr other ↦ ground arith
  ],
)
