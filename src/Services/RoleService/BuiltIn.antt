-- ===== src/Services/RoleService/BuiltIn.antt =====
-- What `delete` of app/services/role_service.py removes.
use fastapi_template.Prelude.{
  ℕ, ◌≡◌, refl, ap, ◌≢◌, inl, inr, Bool, true, false, not, Option, none, some, List, [], ◌∷◌, arith,
  ltb, ◌==◌, Bool-cases, Option-cases, length, any, select, count, first, select-update_none,
}
use fastapi_template.Errors.{role_not_found, ok}
use fastapi_template.Models.{Db, Role}
use fastapi_template.Services.RoleService.{is_built_in}
use fastapi_template.Repositories.Unique.{one_or_none-select, first-select_holds}
use fastapi_template.Services.UserService.Lookups.{same_role}
use fastapi_template.Services.Support.{or_not_found}
use fastapi_template.Services.RoleService.Constraints.{HasRoles}
use mathlib.Core.Path.{subst}
use fastapi_template.Repositories.Users
use fastapi_template.Repositories.Roles
use fastapi_template.Services.RoleService

abbrev pub found_role : ℕ → Db → Option Role
found_role role_id db = first (select (λ r. r.id == role_id) db.roles.rows)

pub get-found :
    (role_id : ℕ) (db : Db)
    → HasRoles db
    → RoleService.get role_id db
      ≡ or_not_found {S = Db} (found_role role_id db) "Role not found" role_not_found db
unfolding RoleService.get Roles.get
get-found role_id db inv =
    rw
      (one_or_none-select same_role (λ r. r.id == role_id) db.roles.rows (λ r s p q. ground arith)
        inv.ids)
      refl

-- The role was none that is built in, no open account held it, it is gone, no account names it any
-- more, and the other roles are as they were.
pub record IsDeleted (role_id : ℕ) (before after : Db) : Type 0 where
  pub role : Role
  pub found : found_role role_id before ≡ some role
  pub spared : is_built_in role.name ≡ false
  pub unheld : select (Users.has_role role_id) before.users.rows ≡ []
  pub gone : found_role role_id after ≡ none
  pub others : (j : ℕ) → j ≢ role_id → found_role j after ≡ found_role j before
  pub unlinked : select (λ u. Users.holds_role u role_id) after.users.rows ≡ []

drop_holder :
    (role_id : ℕ) (ids : List ℕ)
    → any (λ i. i == role_id) (select (λ i. not (i == role_id)) ids) ≡ false
drop_holder role_id [] = refl
drop_holder role_id (i ∷ ids) = ground (arith, drop_holder role_id ids)

none_left :
    (role_id : ℕ) (rs : List Role)
    → select (λ r. r.id == role_id) (select (λ r. not (r.id == role_id)) rs) ≡ []
none_left role_id [] = refl
none_left role_id (r ∷ rs) = ground (arith, none_left role_id rs)

pub others_left :
    (j role_id : ℕ)
    → j ≢ role_id
    → (rs : List Role)
    → select (λ r. r.id == j) (select (λ r. not (r.id == role_id)) rs) ≡ select (λ r. r.id == j) rs
others_left j role_id ne [] = refl
others_left j role_id ne (r ∷ rs) = ground (arith, others_left j role_id ne rs)

no_rows : {R : Type 0} (p : R → Bool) (rs : List R) → ltb 0 (count p rs) ≡ false → select p rs ≡ []
no_rows p rs h = split (select p rs) h
  where
    split : {R : Type 0} (xs : List R) → ltb 0 (length xs) ≡ false → xs ≡ []
    split [] h = refl
    split (x ∷ xs) h = absurd (ground (arith, h))

module _ (role_id : ℕ) (db : Db) (inv : HasRoles db) where
  removed-IsDeleted :
      (role : Role)
      → found_role role_id db ≡ some role
      → role.id ≡ role_id
      → is_built_in role.name ≡ false
      → ltb 0 (count (Users.has_role role_id) db.users.rows) ≡ false
      → IsDeleted role_id db (Roles.remove role db).1
  unfolding Roles.remove
  removed-IsDeleted role found same spared unheld = rw same (record {
    role = role;
    found = found;
    spared = spared;
    unheld = no_rows (Users.has_role role_id) db.users.rows unheld;
    gone = ap first (none_left role_id db.roles.rows);
    others = λ j ne. ap first (others_left j role_id ne db.roles.rows);
    unlinked =
        select-update_none (λ u. Users.holds_role u role_id) (λ u. true) (Roles.drop_link role_id)
          db.users.rows (λ u. drop_holder role_id u.role_ids);
  })

  -- Under the unique constraints, a role is deleted only where it is none that is built in and no
  -- open account holds it. After it the role is gone, no account names it, and every other role is
  -- as it was.
  pub delete-IsDeleted :
      (RoleService.delete role_id db).0 ≡ ok tt
      → IsDeleted role_id db (RoleService.delete role_id db).1
  unfolding RoleService.delete Users.count_for_role
  delete-IsDeleted = rw (get-found role_id db inv) (elim (Option-cases (found_role role_id db)) [
    | inl gone ↦ rw gone (λ h. absurd (cc))
    | inr (role, found) ↦
        let same : role.id ≡ role_id =
          ground (arith, first-select_holds (λ r. r.id == role_id) db.roles.rows role found) in
        rw found (elim (Bool-cases (is_built_in role.name)) [
          | inl built_in ↦ rw built_in (λ h. absurd (cc))
          | inr spared ↦
              rw spared (elim (Bool-cases (ltb 0 (count (Users.has_role role.id) db.users.rows))) [
                | inl held ↦ rw held (λ h. absurd (cc))
                | inr unheld ↦ rw unheld (λ h. removed-IsDeleted role found same spared (
                    subst (λ i. ltb 0 (count (Users.has_role i) db.users.rows) ≡ false) same
                      unheld))
              ])
        ])
  ])
