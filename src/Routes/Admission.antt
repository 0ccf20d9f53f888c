-- ===== src/Routes/Admission.antt =====
-- Who gets through to the body of a private route of app/api/v1.
pub mod Every
pub mod Private
-- The account may do what the dependencies of a route ask.
use fastapi_template.Prelude.{
  String, ◌≡◌, refl, ◌⊎◌, inl, inr, true, false, ◌&&◌, Option, none, some, List, [], ◌∷◌, arith,
  Bool-cases, Option-cases, is_some, All,
}
use fastapi_template.Errors.{not_found_error, Exception, ok, err, plain_error, Result-cases}
use fastapi_template.Models.{Db, Scope, User}
use fastapi_template.Exec.{Exec}
use fastapi_template.Routes.{
  Setting, Caller, Guard, permission, not_impersonating, check, check_all, feature_on, protected,
  protected_scoped,
}
use fastapi_template.Authorization.{Key, is_blocked, scope_for}
use fastapi_template.Features.{Feature, is_enabled, require_feature}
use fastapi_template.Deps.{Actor, impersonation_blocked, get_actor, forbid_impersonation, guard}
use fastapi_template.Deps.Actors.{IsActor, get_actor-IsActor}
use fastapi_template.Deps.Reading.{get_actor-state}
use fastapi_template.Services.UserService.Lookups.{IsConsistent}
use fastapi_template.Services.AuthService.{insufficient_permissions}

abbrev pub Allows : Actor → Key → Type 0
Allows actor (resource, action) =
    (is_some (scope_for actor.user resource action) ≡ true)
    × ((is_some actor.impersonator && is_blocked (resource, action)) ≡ false)

abbrev pub Passes : Actor → Guard → Type 0
Passes actor (permission resource action) = Allows actor (resource, action)
Passes actor not_impersonating = is_some actor.impersonator ≡ false

-- The call raises, and leaves the state that it found.
abbrev pub IsRefused : {S A : Type 0} → Exec S A → S → Type 0
IsRefused m s = (e : Exception) × (m s ≡ (err e, s))

guard-cases :
    (resource action : String) (actor : Actor) (db : Db)
    → IsRefused (guard resource action actor) db
      ⊎ (Allows actor (resource, action)
          × ((scope : Scope) × (guard resource action actor db ≡ (ok scope, db))))
unfolding guard
guard-cases resource action actor db =
    elim (Bool-cases (is_some actor.impersonator && is_blocked (resource, action))) [
      | inl blocked ↦ inl (impersonation_blocked, rw blocked refl)
      | inr free ↦ elim (Option-cases (scope_for actor.user resource action)) [
        | inl nothing ↦ inl (insufficient_permissions, rw (free, nothing) refl)
        | inr (scope, e) ↦ inr ((rw e refl, free), (scope, rw (free, e) refl))
      ]
    ]

check-cases :
    (g : Guard) (actor : Actor) (db : Db)
    → IsRefused (check g actor) db ⊎ (Passes actor g × (check g actor db ≡ (ok tt, db)))
unfolding forbid_impersonation
check-cases (permission resource action) actor db = elim (guard-cases resource action actor db) [
  | inl (e, refused) ↦ inl (e, rw refused refl)
  | inr (allowed, (scope, passed)) ↦ inr (allowed, rw passed refl)
]
check-cases not_impersonating actor db = elim (Bool-cases (is_some actor.impersonator)) [
  | inl impersonated ↦ inl (impersonation_blocked, rw impersonated refl)
  | inr self ↦ inr (self, rw self refl)
]

check_all-cases :
    (gs : List Guard) (actor : Actor) (db : Db)
    → IsRefused (check_all gs actor) db
      ⊎ (All (Passes actor) gs × (check_all gs actor db ≡ (ok tt, db)))
unfolding check_all
check_all-cases [] actor db = inr (tt, refl)
check_all-cases (g ∷ gs) actor db = elim (check-cases g actor db) [
  | inl (e, refused) ↦ inl (e, rw refused refl)
  | inr (pass, passed) ↦ elim (check_all-cases gs actor db) [
    | inl (e, refused) ↦ inl (e, rw (passed, refused) refl)
    | inr (passes, rest) ↦ inr ((pass, passes), rw (passed, rest) refl)
  ]
]

module _ (s : Setting) (caller : Caller s.deployment.crypto.Text) (db : Db)
    (con : IsConsistent db) where
  abbrev pub IsOn : Option Feature → Type 0
  IsOn none = Unit
  IsOn (some feature) = is_enabled s.deployment.unicode s.flags feature ≡ true

  pub feature_on-cases :
      (o : Option Feature)
      → IsRefused (feature_on s caller o) db ⊎ (IsOn o × (feature_on s caller o db ≡ (ok tt, db)))
  unfolding require_feature
  feature_on-cases none = inr (tt, refl)
  feature_on-cases (some feature) =
      elim (Bool-cases (is_enabled s.deployment.unicode s.flags feature)) [
        | inl on ↦ inr (on, rw on refl)
        | inr off ↦ inl (plain_error not_found_error "Not Found", rw off refl)
      ]

  -- The account behind the token of the call
  abbrev pub IsCaller : Actor → Type 0
  IsCaller actor = IsActor s.deployment.crypto db caller.token caller.now actor

  pub actor-cases :
      IsRefused (get_actor s.deployment.crypto caller.token caller.now) db
      ⊎ ((actor : Actor) × IsCaller actor
          × (get_actor s.deployment.crypto caller.token caller.now db ≡ (ok actor, db)))
  actor-cases = elim (Result-cases (get_actor s.deployment.crypto caller.token caller.now db).0) [
    | inl (e, bad) ↦
        inl (
          e,
          ground (arith, bad, get_actor-state s.deployment.crypto db con caller.token caller.now),
        )
    | inr (actor, good) ↦
        let a = get_actor-IsActor s.deployment.crypto db con caller.token caller.now actor good in
        inr (actor, a.0, ground (arith, good, a.1))
  ]

  pub protected-cases :
      {A : Type 0} (feature : Option Feature) (guards : List Guard) (body : Actor → Exec Db A)
      → IsRefused (protected s caller feature guards body) db
        ⊎ ((actor : Actor) × IsCaller actor × IsOn feature × All (Passes actor) guards)
  unfolding protected
  protected-cases feature guards body = elim (feature_on-cases feature) [
    | inl (e, off) ↦ inl (e, rw off refl)
    | inr (on, served) ↦ elim actor-cases [
      | inl (e, unknown) ↦ inl (e, rw (served, unknown) refl)
      | inr (actor, known, found) ↦ elim (check_all-cases guards actor db) [
        | inl (e, refused) ↦ inl (e, rw (served, found, refused) refl)
        | inr (passes, passed) ↦ inr (actor, known, on, passes)
      ]
    ]
  ]

  pub protected_scoped-cases :
      {A : Type 0} (feature : Option Feature) (resource action : String)
      (body : User → Scope → Exec Db A)
      → IsRefused (protected_scoped s caller feature resource action body) db
        ⊎ ((actor : Actor) × IsCaller actor × IsOn feature × Allows actor (resource, action))
  unfolding protected_scoped
  protected_scoped-cases feature resource action body = elim (feature_on-cases feature) [
    | inl (e, off) ↦ inl (e, rw off refl)
    | inr (on, served) ↦ elim actor-cases [
      | inl (e, unknown) ↦ inl (e, rw (served, unknown) refl)
      | inr (actor, known, found) ↦ elim (guard-cases resource action actor db) [
        | inl (e, refused) ↦ inl (e, rw (served, found, refused) refl)
        | inr (allowed, passed) ↦ inr (actor, known, on, allowed)
      ]
    ]
  ]
