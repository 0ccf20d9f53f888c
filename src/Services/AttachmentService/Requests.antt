-- ===== src/Services/AttachmentService/Requests.antt =====
-- A request's transaction, as get_session of app/db/session.py settles it, with the hooks of
-- app/db/transactional_hooks.py and the clean-up tasks that they start.
use fastapi_template.Prelude.{Bool, false, [], if◌then◌else◌}
use fastapi_template.Errors.{other_exception, Result, ok, err}
use fastapi_template.Models.{Db}
use fastapi_template.Exec.{Exec}
use fastapi_template.Services.AttachmentService.{World, cleaned}
use fastapi_template.Storage.{Storage}
use fastapi_template.Hooks.{Outcome, committed, rolled_back, dispatch}

pub record Site (S : Type 0) : Type 0 where
  pub db : Db
  pub files : S

module _ {S : Type 0} (storage : Storage S) where
  abbrev pub opened : Site S → World S
  opened site = record { db = site.db; files = site.files; hooks = [] }

  -- What the hooks call at an outcome, run to the end.
  abbrev pub resolved : Outcome → Db → World S → Site S
  resolved outcome db w = record {
    db = db;
    files = cleaned storage (dispatch outcome false w.hooks).0 w.files;
  }

  -- `commits` is whether the database takes the COMMIT.
  abbrev pub settle : {A : Type 0} → Bool → Db → Result A × World S → Result A × Site S
  settle commits before (err e, w) = (err e, resolved rolled_back before w)
  settle commits before (ok a, w) =
      if commits
      then (ok a, resolved committed w.db w)
      else (err other_exception, resolved rolled_back before w)

  unfoldable pub request : {A : Type 0} → Bool → Exec (World S) A → Exec (Site S) A
  request commits m site = settle commits site.db (m (opened site))
