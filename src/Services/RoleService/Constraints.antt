-- ===== src/Services/RoleService/Constraints.antt =====
-- The unique constraints of accounts and roles across app/services/role_service.py.
use fastapi_template.Prelude.{
  ℕ, ◌+◌, ◌<◌, String, ◌≡◌, inl, inr, true, false, not, ◌&&◌, Option, none, some, List, [], ◌∷◌,
  arith, eq_iff, ◌==◌, Bool-cases, any, All, All-append, All-map, All-select,
}
use fastapi_template.Errors.{ErrorCode}
use fastapi_template.Models.{Db, Role}
use fastapi_template.Exec.{get_session}
use fastapi_template.Services.RoleService.{new_role, GrantWrite, RoleWrite, grants_of}
use fastapi_template.Repositories.Unique.{
  Apart, Apart-append, Apart-update, Apart-replace, All-update, Apart-select,
}
use fastapi_template.Exec.Keeps.{
  Keeps, Keeps-pure, Keeps-read, Keeps-refuse_if, Keeps-bind, Keeps-get_session,
}
use fastapi_template.Services.UserService.Lookups.{same_name, same_role}
use fastapi_template.Services.Support.{or_not_found}
use fastapi_template.Repositories.Users
use fastapi_template.Repositories.Roles
use fastapi_template.Services.RoleService

-- Also the sequence of the role ids.
pub record HasRoles (db : Db) : Type 0 where
  pub names : Apart same_name db.roles.rows
  pub ids : Apart same_role db.roles.rows
  pub sequence : All (λ r. r.id < db.roles.next_id) db.roles.rows

name_free :
    (role : Role) (rs : List Role)
    → any (Roles.is_named role.name) rs ≡ false
    → All (λ r. same_name r role ≡ false) rs
name_free role [] h = tt
name_free role (r ∷ rs) h = (ground (arith, h), name_free role rs (ground (arith, h)))

others_named :
    (role : Role) (rs : List Role)
    → any (λ o. not (o.id == role.id) && Roles.is_named role.name o) rs ≡ false
    → All (λ o. (not (o.id == role.id) && same_name role o) ≡ false) rs
others_named role [] h = tt
others_named role (o ∷ rs) h = (
  ground (arith, eq_iff o.name role.name, eq_iff role.name o.name),
  others_named role rs (ground (arith, h)),
)

fresh_role :
    (n : ℕ) (rs : List Role)
    → All (λ r. r.id < n) rs
    → (role : Role) → role.id ≡ n
    → All (λ r. same_role r role ≡ false) rs
fresh_role n [] h role e = tt
fresh_role n (r ∷ rs) h role e = (ground (arith, h.0), fresh_role n rs h.1 role e)

below_next : (n : ℕ) (rs : List Role) → All (λ r. r.id < n) rs → All (λ r. r.id < n + 1) rs
below_next n rs h = All-map (λ r p. omega arith) rs h

pub create-HasRoles :
    (make : ℕ → Role) → ((n : ℕ) → (make n).id ≡ n) → Keeps HasRoles (Roles.create make)
unfolding Roles.create
create-HasRoles make numbered = record {
  kept = λ db inv.
      let n : ℕ = db.roles.next_id in
      let role : Role = make n in
      elim (Bool-cases (any (Roles.is_named (make db.roles.next_id).name) db.roles.rows)) [
        | inl taken ↦ rw taken inv
        | inr free ↦ elim (Bool-cases (Roles.grants_clash (make db.roles.next_id).grants)) [
          | inl twice ↦ rw (free, twice) inv
          | inr once ↦
              rw (free, once)
                (record {
                  names =
                      Apart-append same_name db.roles.rows role inv.names
                        (name_free role db.roles.rows free);
                  ids =
                      Apart-append same_role db.roles.rows role inv.ids
                        (fresh_role n db.roles.rows inv.sequence role (numbered n));
                  sequence =
                      All-append (λ r. r.id < n + 1) db.roles.rows (role ∷ [])
                        (below_next n db.roles.rows inv.sequence) (omega (arith, numbered n), tt);
                })
        ]
      ];
}

is_below :
    (i n : ℕ) (rs : List Role) → All (λ r. r.id < n) rs → any (λ o. o.id == i) rs ≡ true → i < n
is_below i n [] h e = cc
is_below i n (o ∷ rs) h e = elim (Bool-cases (o.id == i)) [
  | inl same ↦ ground (arith, h.0)
  | inr other ↦ is_below i n rs h.1 (ground arith)
]

pub save-HasRoles : (role : Role) → Keeps HasRoles (Roles.save role)
unfolding Roles.save
save-HasRoles role = record {
  kept = λ db inv.
      elim (Bool-cases
        (any (λ o. not (o.id == role.id) && Roles.is_named role.name o) db.roles.rows)) [
          | inl taken ↦ rw taken inv
          | inr free ↦ elim (Bool-cases (Roles.grants_clash role.grants)) [
            | inl twice ↦ rw (free, twice) inv
            | inr once ↦ elim (Bool-cases (any (λ o. o.id == role.id) db.roles.rows)) [
              | inr gone ↦ rw (free, once, gone) inv
              | inl present ↦
                  rw (free, once, present)
                    (record {
                      names =
                          Apart-replace same_name same_role (λ o. o.id == role.id) role
                            (λ r s. ground (arith, eq_iff r.name s.name, eq_iff s.name r.name))
                            (λ r s p q. ground arith) db.roles.rows
                            (others_named role db.roles.rows free) inv.ids inv.names;
                      ids =
                          Apart-update same_role (λ o. o.id == role.id) (λ o. role) db.roles.rows
                            (λ r s e. ground arith) inv.ids;
                      sequence =
                          All-update (λ r. r.id < db.roles.next_id) (λ o. o.id == role.id)
                            (λ o. role) db.roles.rows
                            (λ r h. ground (
                              arith,
                              is_below role.id db.roles.next_id db.roles.rows inv.sequence present,
                            ))
                            inv.sequence;
                    })
            ]
          ]
        ];
}

pub remove-HasRoles : (role : Role) → Keeps HasRoles (Roles.remove role)
unfolding Roles.remove
remove-HasRoles role = record {
  kept = λ db inv. record {
    names = Apart-select same_name (λ o. not (o.id == role.id)) db.roles.rows inv.names;
    ids = Apart-select same_role (λ o. not (o.id == role.id)) db.roles.rows inv.ids;
    sequence =
        All-select (λ r. r.id < db.roles.next_id) (λ o. not (o.id == role.id)) db.roles.rows
          inv.sequence;
  };
}

-- What only reads keeps any property.
module _ {P : Db → Type 0} where
  pub or_not_found-Keeps :
      {A : Type 0} (o : Option A) (message : String) (code : ErrorCode)
      → Keeps {A = A} P (or_not_found {S = Db} o message code)
  or_not_found-Keeps none message code = record { kept = λ db inv. inv }
  or_not_found-Keeps (some a) message code = record { kept = λ db inv. inv }

  pub get-Keeps : (role_id : ℕ) → Keeps P (RoleService.get role_id)
  unfolding RoleService.get Roles.get
  get-Keeps role_id = Keeps-bind _ _ (Keeps-read _) (λ found. or_not_found-Keeps found _ _)

  pub get_by_name-Keeps : (name : String) → Keeps P (Roles.get_by_name name)
  unfolding Roles.get_by_name
  get_by_name-Keeps name = record { kept = λ db inv. inv }

  pub count-Keeps : (role_id : ℕ) → Keeps P (Users.count_for_role role_id)
  unfolding Users.count_for_role
  count-Keeps role_id = record { kept = λ db inv. inv }

  get_permission-Keeps : (resource action : String) → Keeps P (Roles.get_permission resource action)
  unfolding Roles.get_permission
  get_permission-Keeps resource action = record { kept = λ db inv. inv }

  pub grants_of-Keeps : (grants : List GrantWrite) → Keeps P (grants_of grants)
  unfolding grants_of
  grants_of-Keeps [] = Keeps-pure _
  grants_of-Keeps (wanted ∷ rest) =
      Keeps-bind _ _ (get_permission-Keeps wanted.resource wanted.action) (λ found.
        Keeps-bind _ _ (or_not_found-Keeps found _ _)
          (λ permission. Keeps-bind _ _ (grants_of-Keeps rest) (λ others. Keeps-pure _)))

-- How an operation keeps what its writes keep.
pub ruleset keeps = (
  Keeps-pure, Keeps-refuse_if, Keeps-bind, get-Keeps, get_by_name-Keeps, count-Keeps,
  grants_of-Keeps,
)

-- One request to the service.
pub data RoleRequest : Type 0 where
  creates : RoleWrite → RoleRequest
  updates : ℕ → RoleWrite → RoleRequest
  deletes : ℕ → RoleRequest

-- The database after the request's transaction.
abbrev pub after : RoleRequest → Db → Db
after (creates sent) db = (get_session (RoleService.create sent) db).1
after (updates role_id sent) db = (get_session (RoleService.update role_id sent) db).1
after (deletes role_id) db = (get_session (RoleService.delete role_id) db).1

abbrev pub after_all : List RoleRequest → Db → Db
after_all [] db = db
after_all (r ∷ rs) db = after_all rs (after r db)
