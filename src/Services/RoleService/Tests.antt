-- ===== src/Services/RoleService/Tests.antt =====
-- Runs of app/services/role_service.py.
use fastapi_template.Prelude.{refl, none, List, [], ◌∷◌, arith}
use fastapi_template.Models.{Db}
use fastapi_template.Services.RoleService.Constraints.{
  HasRoles, RoleRequest, creates, updates, deletes, after_all,
}
use fastapi_template.Services.RoleService.Administrator.{HasRole, after_all-HasRole}
use fastapi_template.Services.UserService.Tests.{admin, member, staffed}
use fastapi_template.Services.RoleService.{RoleWrite, new_role}
use fastapi_template.Services.RoleService.BuiltIn.{IsDeleted, delete-IsDeleted}
use fastapi_template.Repositories.Users
use fastapi_template.Repositories.Roles
use fastapi_template.Services.RoleService

abbrev editor : RoleWrite
editor = record { name = "editor"; grants = []; features = none }

abbrev edited : Db
edited = record staffed {
  roles = record { rows = admin ∷ member ∷ new_role editor [] 3 ∷ []; next_id = 4 };
}

staffed-HasRoles : HasRoles staffed
staffed-HasRoles = record {
  names = ((refl, tt), (tt, tt));
  ids = ((refl, tt), (tt, tt));
  sequence = (omega arith, (omega arith, tt));
}

edited-HasRoles : HasRoles edited
edited-HasRoles = record {
  names = ((refl, (refl, tt)), ((refl, tt), (tt, tt)));
  ids = ((refl, (refl, tt)), ((refl, tt), (tt, tt)));
  sequence = (omega arith, (omega arith, (omega arith, tt)));
}

-- Requests that would rename and delete the administrator's role, and take its name
abbrev attacks : List RoleRequest
attacks =
    updates 1 editor
    ∷ deletes 1
    ∷ creates (record editor { name = "superadmin" })
    ∷ creates editor
    ∷ updates 2 editor
    ∷ deletes 3
    ∷ []

after_all-HasRole_example : HasRole admin refl (after_all attacks staffed)
after_all-HasRole_example = after_all-HasRole admin refl attacks staffed (staffed-HasRoles, refl)

delete-IsDeleted_example : IsDeleted 3 edited (RoleService.delete 3 edited).1
unfolding RoleService.delete RoleService.get Roles.get Users.count_for_role Roles.remove
delete-IsDeleted_example = delete-IsDeleted 3 edited edited-HasRoles refl
