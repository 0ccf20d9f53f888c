-- ===== src/Authorization.antt =====
-- app/core/authorization.py
pub mod Widest
pub mod Laws
mod Tests
use fastapi_template.Prelude.{
  String, Bool, false, not, ◌&&◌, ◌||◌, Option, none, some, List, [], ◌∷◌, str_eq, if◌then◌else◌,
  any, str_le, sort_by,
}
use fastapi_template.Models.{Scope, all, is_all, RolePermission, Role, admin_role, User}

abbrev pub items : String
items = "items"

abbrev pub request_log : String
request_log = "request_log"

abbrev pub users : String
users = "users"

abbrev pub roles : String
roles = "roles"

abbrev pub feature_flags : String
feature_flags = "feature_flags"

abbrev pub settings : String
settings = "settings"

abbrev pub audit_log : String
audit_log = "audit_log"

abbrev pub read_action : String
read_action = "read"

abbrev pub create_action : String
create_action = "create"

abbrev pub update_action : String
update_action = "update"

abbrev pub delete_action : String
delete_action = "delete"

abbrev pub impersonate_action : String
impersonate_action = "impersonate"

-- (resource, action)
abbrev pub Key : Type 0
Key = String × String

abbrev pub key_eq : Key → Key → Bool
key_eq (r, a) (s, b) = str_eq r s && str_eq a b

abbrev pub blocked_while_impersonating : List Key
blocked_while_impersonating =
    (roles, create_action)
    ∷ (roles, update_action)
    ∷ (roles, delete_action)
    ∷ (users, update_action)
    ∷ (users, delete_action)
    ∷ (users, impersonate_action)
    ∷ (feature_flags, update_action)
    ∷ []

unfoldable pub is_blocked : Key → Bool
is_blocked k = any (key_eq k) blocked_while_impersonating

unfoldable pub is_superuser : User → Bool
is_superuser user = any (λ role. str_eq role.name admin_role) user.roles

-- `dict[tuple[str, str], Scope]`, its keys in the order of insertion
abbrev pub Widest : Type 0
Widest = List (Key × Scope)

-- widest.get(key)
unfoldable pub get : Key → Widest → Option Scope
get k [] = none
get k ((j, s) ∷ w) = if key_eq j k then some s else get k w

-- widest[key] = scope
unfoldable pub put : Key → Scope → Widest → Widest
put k s [] = (k, s) ∷ []
put k s ((j, t) ∷ w) = if key_eq j k then (j, s) ∷ w else (j, t) ∷ put k s w

abbrev pub key_of : RolePermission → Key
key_of g = (g.permission.resource, g.permission.action)

abbrev pub holds_all : Option Scope → Bool
holds_all none = false
holds_all (some s) = is_all s

-- One round of the inner loop of `_widest`.
unfoldable pub widen : Widest → RolePermission → Widest
unfolding get put
widen w g = if not (holds_all (get (key_of g) w)) then put (key_of g) g.scope w else w

pub widen_grants : Widest → List RolePermission → Widest
widen_grants w [] = w
widen_grants w (g ∷ gs) = widen_grants (widen w g) gs

pub widen_roles : Widest → List Role → Widest
widen_roles w [] = w
widen_roles w (role ∷ rest) = widen_roles (widen_grants w role.grants) rest

unfoldable pub widest : User → Widest
unfolding widen_roles widen_grants widen get put
widest user = widen_roles [] user.roles

unfoldable pub scope_for : User → String → String → Option Scope
unfolding is_superuser widest get
scope_for user resource action =
    if is_superuser user then some all else get (resource, action) (widest user)

unfoldable pub outranks : User → User → Bool
unfolding is_superuser
outranks actor target = is_superuser actor || not (is_superuser target)

unfoldable pub may_impersonate : User → User → Bool
unfolding scope_for outranks
may_impersonate actor target = elim (scope_for actor users impersonate_action) [
  | none ↦ false
  | some s ↦ outranks actor target
]

abbrev pub key_le : Key × Scope → Key × Scope → Bool
key_le ((r, a), s) ((q, b), t) = if str_eq r q then str_le a b else str_le r q

unfoldable pub granted : User → Widest
unfolding widest
granted user = sort_by key_le (widest user)
