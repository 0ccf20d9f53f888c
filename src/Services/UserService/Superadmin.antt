-- ===== src/Services/UserService/Superadmin.antt =====
-- `remove_role` and `remove` of app/services/user_service.py never take from an account its own
-- superadmin role.
use fastapi_template.Prelude.{
  ℕ, String, ◌≡◌, refl, inl, inr, Bool, true, false, not, ◌&&◌, some, List, [], ◌∷◌, Memᴰ, arith,
  str_eq, eq_iff, ◌==◌, Bool-cases, Option-cases, any, select, first, any_witness, any_intro,
  select_intro, select_elim, any-update, map_intro,
}
use fastapi_template.Models.{Db, Role, admin_role, UserRow, User}
use fastapi_template.Services.UserService.Lookups.{
  same_user, IsConsistent, has_id_separates, found_user, found_named, get-found, get-missing,
  role_named-found, role_named-missing,
}
use fastapi_template.Services.UserService.{without_role}
use fastapi_template.Repositories.Unique.{Apart, Separates, select-apart, first-select_holds}
use fastapi_template.Authorization.{is_superuser}
use fastapi_template.Repositories.Users
use fastapi_template.Repositories.Roles
use fastapi_template.Services.UserService

-- The account is open and superadmin.
abbrev pub is_superadmin_row : Db → ℕ → UserRow → Bool
is_superadmin_row db i u = Users.has_id i u && is_superuser (Users.load db u)

abbrev pub is_superadmin : ℕ → Db → Bool
is_superadmin i db = any (is_superadmin_row db i) db.users.rows

-- The one account with an id is the one of which a query over that id speaks.
none_beside :
    {R : Type 0} (p g : R → Bool) (rs : List R)
    → select p rs ≡ []
    → any (λ o. p o && g o) rs ≡ false
none_beside p g [] h = refl
none_beside p g (o ∷ rs) h = ground (arith, none_beside p g rs)

unique_witness :
    {R : Type 0} (c : R → R → Bool) (p g : R → Bool) (rs : List R) (r : R)
    → Separates c p
    → Apart c rs
    → first (select p rs) ≡ some r
    → any (λ o. p o && g o) rs ≡ true
    → g r ≡ true
unique_witness c p g [] r sep h e k = cc
unique_witness c p g (o ∷ rs) r sep h e k = elim (Bool-cases (p o)) [
  | inl wanted ↦
      ground (arith, wanted, none_beside p g rs (select-apart c p o rs sep wanted h.0), e, k)
  | inr other ↦ unique_witness c p g rs r sep h.1 (ground arith) (ground arith)
]

-- Taking a role of another name leaves the superadmin role.
kept_admin :
    (db : Db) (u : User) (role : Role)
    → str_eq role.name admin_role ≡ false
    → u.roles ≡ Users.roles_of db u.row
    → is_superuser u ≡ true
    → is_superuser (Users.load db (without_role u role).row) ≡ true
unfolding is_superuser Users.roles_of
kept_admin db u role other loaded admin =
    let (r, m, named) = any_witness (λ (r : Role). str_eq r.name admin_role) u.roles admin in
    let (n, held) =
      select_elim (λ r. Users.holds_role u.row r.id) db.roles.rows r (rw loaded at m) in
    let kept : Memᴰ r (select (λ h. not (str_eq h.name role.name)) u.roles) =
      select_intro _ u.roles r m (
        ground (
          arith,
          eq_iff r.name admin_role,
          eq_iff r.name role.name,
          eq_iff role.name admin_role,
          named,
          other,
        )) in
    any_intro _ _ r
      (select_intro _ db.roles.rows r n
        (any_intro _ _ r.id (map_intro (λ q. q.id) _ r kept) (ground arith)))
      named

-- What a write of the actor's own row, or of another row, leaves of the actor.
saved_keeps :
    (i : ℕ) (db : Db) (user : User)
    → ((o : UserRow)
        → is_superadmin_row db i o ≡ true
        → (o.id == user.id) ≡ true
        → is_superadmin_row db i user.row ≡ true)
    → is_superadmin i db ≡ true
    → is_superadmin i (Users.save user db).1 ≡ true
unfolding Users.save Users.roles_of
saved_keeps i db user keep h = ground (
  arith,
  any-update (is_superadmin_row db i) (λ o. o.id == user.id) (λ o. user.row) db.users.rows
      (λ o q. elim (Bool-cases (o.id == user.id)) [
        | inl mine ↦ rw mine (keep o q mine)
        | inr other ↦ rw other q
      ])
      h,
)

-- The write of `remove_role` keeps an actor that it is not asked to strip of `superadmin`.
removal_keeps :
    (i user_id : ℕ) (role_name : String) (db : Db) (u : UserRow) (role : Role)
    → IsConsistent db
    → (i == user_id && str_eq role_name admin_role) ≡ false
    → found_user user_id db ≡ some u
    → found_named role_name db ≡ some role
    → is_superadmin i db ≡ true
    → (o : UserRow) → is_superadmin_row db i o ≡ true
    → (o.id == u.id) ≡ true
    → is_superadmin_row db i (without_role (Users.load db u) role).row ≡ true
removal_keeps i user_id role_name db u role inv allowed e f h o q mine =
    let has : Users.has_id user_id u ≡ true =
      first-select_holds (Users.has_id user_id) db.users.rows u e in
    let named : str_eq role.name role_name ≡ true =
      first-select_holds (Roles.is_named role_name) db.roles.rows role f in
    let same : user_id ≡ i = ground (arith, q, mine, has) in
    let other : str_eq role.name admin_role ≡ false = ground (
      arith,
      allowed,
      same,
      named,
      eq_iff role.name role_name,
      eq_iff role_name admin_role,
      eq_iff role.name admin_role,
    ) in
    let admin : is_superuser (Users.load db u) ≡ true =
      unique_witness same_user (Users.has_id i) (λ (v : UserRow). is_superuser (Users.load db v))
        db.users.rows u (has_id_separates i) inv.user_ids (rw same at e) h in
    ground (arith, has, same, kept_admin db (Users.load db u) role other refl admin)

-- Under the unique constraints, whatever account and role remove_role is called for, and whether
-- it returns or raises, an actor that is an open superadmin account stays one.
pub remove_role-keeps_own_superadmin :
    (actor : User) (user_id : ℕ) (role_name : String) (db : Db)
    → IsConsistent db
    → is_superadmin actor.id db ≡ true
    → is_superadmin actor.id (UserService.remove_role actor user_id role_name db).1 ≡ true
unfolding UserService.remove_role
remove_role-keeps_own_superadmin actor user_id role_name db inv h =
    elim (Bool-cases (actor.id == user_id && str_eq role_name admin_role)) [
      | inl itself ↦ rw itself h
      | inr allowed ↦ rw allowed (elim (Option-cases (found_user user_id db)) [
        | inl gone ↦ rw (get-missing db inv user_id gone) h
        | inr (u, e) ↦
            rw (get-found db inv user_id u e) (elim (Option-cases (found_named role_name db)) [
              | inl missing ↦ rw (role_named-missing db inv role_name missing) h
              | inr (role, f) ↦
                  rw (role_named-found db inv role_name role f)
                    (elim (Bool-cases (UserService.holds (Users.load db u) role)) [
                      | inl held ↦ rw held (
                          saved_keeps actor.id db (without_role (Users.load db u) role)
                            (removal_keeps actor.id user_id role_name db u role inv allowed e f h)
                            h)
                      | inr free ↦ rw free h
                    ])
            ])
      ])
    ]
