-- ===== src/Deps/Tests.antt =====
-- Runs of `get_actor` and the guards of app/api/deps.py.
use fastapi_template.Prelude.{◌≡◌, refl, ◌≢◌, false, ◌&&◌, some, arith, is_some}
use fastapi_template.Errors.{ok}
use fastapi_template.Models.{all}
use fastapi_template.Exec.{◌>>=◌}
use fastapi_template.Deps.{Actor, password_moved_after, load, get_actor, guard}
use fastapi_template.Deps.Passwords.{change_password-load}
use fastapi_template.Deps.Actors.{IsActor, guard-IsActor}
use fastapi_template.Security.{create_access_token, decode_as, decode_access_token}
use fastapi_template.Authorization.{is_blocked, is_superuser, scope_for, outranks, may_impersonate}
use fastapi_template.Services.UserService.Tests.{ada, staffed, staffed-IsConsistent}
use fastapi_template.Services.AuthService.{revoke_sessions, change_password}
use fastapi_template.Services.AuthService.Tests.{deployment, mint_1}
use fastapi_template.Repositories.RefreshTokens
use fastapi_template.Repositories.Users
use fastapi_template.Services.UserService
use fastapi_template.Repositories.Users

guard-IsActor_example :
    (actor : Actor) × IsActor deployment.crypto staffed
      (create_access_token deployment.crypto deployment.lifetimes "aa" mint_1)
      6000000
      actor
    × (scope_for actor.user "items" "read" ≡ some all)
    × ((is_some actor.impersonator && is_blocked ("items", "read")) ≡ false)
    × (((get_actor deployment.crypto
              (create_access_token deployment.crypto deployment.lifetimes "aa" mint_1)
              6000000
            >>= guard "items" "read")
          staffed).1
        ≡ staffed)
unfolding get_actor load guard create_access_token decode_access_token decode_as UserService.get
    Users.get password_moved_after may_impersonate outranks scope_for is_superuser Users.roles_of
guard-IsActor_example =
    guard-IsActor deployment.crypto staffed staffed-IsConsistent
      (create_access_token deployment.crypto deployment.lifetimes "aa" mint_1) 6000000 "items"
      "read" all refl

change_password-load_example :
    (load deployment.crypto "aa" 7
      (change_password deployment
        (Users.load staffed ada)
        "engine"
        "lace"
        8000000
        8000001
        staffed).1).0
    ≢ ok (Users.load staffed ada)
unfolding change_password revoke_sessions Users.save RefreshTokens.revoke_all_for_user
change_password-load_example =
    change_password-load deployment ada staffed staffed-IsConsistent refl "engine" "lace" 8000000
      8000001 "aa" 7 (Users.load staffed ada) refl refl (omega arith)
