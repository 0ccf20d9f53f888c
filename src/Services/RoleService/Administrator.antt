-- ===== src/Services/RoleService/Administrator.antt =====
-- The administrator's role behind the guards of app/services/role_service.py.
use fastapi_template.Prelude.{
  ℕ, ◌≡◌, refl, sym, ap, ◌∙◌, ◌≢◌, inl, inr, false, not, ◌&&◌, ◌||◌, some, List, [], ◌∷◌, ◌++◌,
  arith, str_eq, eq_iff, ◌==◌, Bool-cases, Option-cases, any, select, first, select-append,
  select-update_other,
}
use fastapi_template.Models.{Db, RolePermission, Role, admin_role}
use fastapi_template.Services.RoleService.{RoleWrite, is_built_in, new_role}
use fastapi_template.Services.RoleService.Constraints.{
  keeps, HasRoles, create-HasRoles, save-HasRoles, remove-HasRoles, get_by_name-Keeps, count-Keeps,
  grants_of-Keeps, RoleRequest, creates, updates, deletes, after, after_all,
}
use fastapi_template.Services.RoleService.BuiltIn.{found_role, get-found, others_left}
use fastapi_template.Exec.Keeps.{Keeps, Keeps-refuse_if, Keeps-bind, Keeps-get_session}
use fastapi_template.Repositories.Unique.{first-select_holds}
use fastapi_template.Repositories.Roles
use fastapi_template.Services.RoleService

first-append : {A : Type 0} (xs ys : List A) (a : A) → first xs ≡ some a → first (xs ++ ys) ≡ some a
first-append [] ys a h = absurd (cc)
first-append (x ∷ xs) ys a h = h

module _ (role : Role) (named : role.name ≡ admin_role) where
  -- The role stands in the table, just as it is.
  abbrev pub HasRole : Db → Type 0
  HasRole db = HasRoles db × (found_role role.id db ≡ some role)

  create-HasRole :
      (sent : RoleWrite) (grants : List RolePermission)
      → Keeps HasRole (Roles.create (new_role sent grants))
  unfolding Roles.create
  create-HasRole sent grants = record {
    kept = λ db (inv, found). (
      (create-HasRoles (new_role sent grants) (λ n. refl)).kept db inv,
      elim (Bool-cases
          (any (Roles.is_named sent.name) db.roles.rows || Roles.grants_clash grants)) [
            | inl refused ↦ rw refused found
            | inr free ↦
                rw
                  (
                    free,
                    select-append (λ (r : Role). r.id == role.id) db.roles.rows
                        (new_role sent grants db.roles.next_id ∷ []),
                  )
                  (first-append (select (λ r. r.id == role.id) db.roles.rows) _ role found)
          ],
    );
  }

  save-HasRole : (other : Role) → other.id ≢ role.id → Keeps HasRole (Roles.save other)
  unfolding Roles.save
  save-HasRole other apart = record {
    kept = λ db (inv, found). (
      (save-HasRoles other).kept db inv,
      elim (Bool-cases (
          any (λ o. not (o.id == other.id) && Roles.is_named other.name o) db.roles.rows
          || Roles.grants_clash other.grants)) [
            | inl refused ↦ rw refused found
            | inr free ↦ elim (Bool-cases (any (λ o. o.id == other.id) db.roles.rows)) [
              | inr gone ↦ rw (free, gone) found
              | inl present ↦
                  rw
                    (
                      free,
                      present,
                      select-update_other (λ (r : Role). r.id == role.id) (λ o. o.id == other.id)
                          (λ o. other) db.roles.rows
                          (λ r h. (ground (arith, h, apart), ground (arith, apart))),
                    )
                    found
            ]
          ],
    );
  }

  remove-HasRole : (other : Role) → other.id ≢ role.id → Keeps HasRole (Roles.remove other)
  unfolding Roles.remove
  remove-HasRole other apart = record {
    kept = λ db (inv, found). (
      (remove-HasRoles other).kept db inv,
      rw (others_left role.id other.id (λ e. apart (sym e)) db.roles.rows) found,
    );
  }

  -- Another role than the administrator's, which a call has found
  fetched-apart :
      (role_id : ℕ) (db : Db) (other : Role)
      → found_role role_id db ≡ some other
      → found_role role.id db ≡ some role
      → str_eq other.name admin_role ≡ false
      → other.id ≢ role.id
  fetched-apart role_id db other got found differs same =
      let at : other.id ≡ role_id =
        ground (arith, first-select_holds (λ r. r.id == role_id) db.roles.rows other got) in
      let one : some other ≡ some role =
        sym got ∙ ap (λ i. found_role i db) (sym at ∙ same) ∙ found in
      let alike : other ≡ role = ground (arith, one) in
      let by_name : other.name ≡ admin_role = ap (λ r. r.name) alike ∙ named in
      ground (arith, differs, by_name, eq_iff other.name admin_role)

  create-Keeps : (sent : RoleWrite) → Keeps HasRole (RoleService.create sent)
  unfolding RoleService.create
  create-Keeps sent = search (keeps, create-HasRole) depth 9

  update-Keeps : (role_id : ℕ) (sent : RoleWrite) → Keeps HasRole (RoleService.update role_id sent)
  unfolding RoleService.update
  update-Keeps role_id sent = record {
    kept = λ db (inv, found).
        rw (get-found role_id db inv) (elim (Option-cases (found_role role_id db)) [
          | inl gone ↦ rw gone (inv, found)
          | inr (other, got) ↦ rw got (elim (Bool-cases (str_eq other.name admin_role)) [
            | inl immutable ↦ rw immutable (inv, found)
            | inr free ↦ rw free (
                (Keeps-bind {P = HasRole} _ _ (get_by_name-Keeps sent.name) (λ taken.
                    Keeps-bind _ _ (Keeps-refuse_if _ _) (λ v.
                      Keeps-bind _ _ (grants_of-Keeps sent.grants) (λ grants.
                        save-HasRole (new_role sent grants other.id)
                          (fetched-apart role_id db other got found free))))).kept
                  db (inv, found))
          ])
        ]);
  }

  delete-Keeps : (role_id : ℕ) → Keeps HasRole (RoleService.delete role_id)
  unfolding RoleService.delete
  delete-Keeps role_id = record {
    kept = λ db (inv, found).
        rw (get-found role_id db inv) (elim (Option-cases (found_role role_id db)) [
          | inl gone ↦ rw gone (inv, found)
          | inr (other, got) ↦ rw got (elim (Bool-cases (is_built_in other.name)) [
            | inl built_in ↦ rw built_in (inv, found)
            | inr spared ↦ rw spared (
                (Keeps-bind {P = HasRole} _ _ (count-Keeps other.id) (λ accounts.
                    Keeps-bind _ _ (Keeps-refuse_if _ _) (λ v.
                      remove-HasRole other
                        (fetched-apart role_id db other got found (ground (arith, spared)))))).kept
                  db (inv, found))
          ])
        ]);
  }

  after-HasRole : (r : RoleRequest) (db : Db) → HasRole db → HasRole (after r db)
  after-HasRole (creates sent) db h = (Keeps-get_session _ (create-Keeps sent)).kept db h
  after-HasRole (updates role_id sent) db h =
      (Keeps-get_session _ (update-Keeps role_id sent)).kept db h
  after-HasRole (deletes role_id) db h = (Keeps-get_session _ (delete-Keeps role_id)).kept db h

  -- Where the role names and ids are unique, and the role of the administrator stands in the
  -- table: whatever requests to the role service arrive, in whatever order, committed or rolled
  -- back, it stands there just as it was, with its name, its grants and its features, the names
  -- and ids are still unique, and the next role id is free.
  pub after_all-HasRole : (rs : List RoleRequest) (db : Db) → HasRole db → HasRole (after_all rs db)
  after_all-HasRole [] db h = h
  after_all-HasRole (r ∷ rs) db h = after_all-HasRole rs (after r db) (after-HasRole r db h)
