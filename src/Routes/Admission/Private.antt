-- ===== src/Routes/Admission/Private.antt =====
-- Every private route of app/api/v1, those of the attachments included, is behind its table of
-- permissions.
use fastapi_template.Routes.Attachments
use fastapi_template.Prelude.{◌≡◌, refl, ◌⊎◌, inl, inr, true, some, []}
use fastapi_template.Models.{User}
use fastapi_template.Exec.{Exec, pure, ◌>>=◌}
use fastapi_template.Routes.{Setting, Caller}
use fastapi_template.Routes.Calls.{
  FileCall, add_attachment, list_attachments, download_attachment, remove_attachment, PrivateCall,
  over_rows, over_files, handle_file, handle_private,
}
use fastapi_template.Routes.Attachments.{FileSetting, current_user}
use fastapi_template.Routes.Admission.{IsRefused, IsCaller, protected-cases}
use fastapi_template.Routes.Admission.Every.{IsEntitled, handle-IsAdmitted}
use fastapi_template.Services.AttachmentService.{World}
use fastapi_template.Features.{items_feature, is_enabled}
use fastapi_template.Services.UserService.Lookups.{IsConsistent}
use fastapi_template.Deps.{Actor}

module _ {S : Type 0} (s : Setting) (f : FileSetting S) (caller : Caller s.deployment.crypto.Text)
    (w : World S) (con : IsConsistent w.db) where
  -- What must hold where a call gets through; a route of the attachments asks for the feature of the
  -- items, and for no permission.
  abbrev pub IsEntitledTo : PrivateCall → Actor → Type 0
  IsEntitledTo (over_rows call) actor = IsEntitled s caller w.db con call actor
  IsEntitledTo (over_files call) actor =
      is_enabled s.deployment.unicode s.flags items_feature ≡ true

  abbrev Admitted : Type 0
  Admitted =
      (actor : Actor) × IsCaller s caller w.db con actor
      × (is_enabled s.deployment.unicode s.flags items_feature ≡ true)

  current_user-cases : IsRefused (current_user s f caller) w ⊎ Admitted
  unfolding current_user
  current_user-cases =
      elim (protected-cases s caller w.db con (some items_feature) [] (λ actor. pure actor.user)) [
        | inl (e, refused) ↦ inl (e, rw refused refl)
        | inr (actor, known, on, none_asked) ↦ inr (actor, known, on)
      ]

  -- A refusal of the account is one of the call.
  IsRefused-bind :
      {A : Type 0} (body : User → Exec (World S) A)
      → IsRefused (current_user s f caller) w ⊎ Admitted
      → IsRefused (current_user s f caller >>= body) w ⊎ Admitted
  IsRefused-bind body (inl (e, refused)) = inl (e, rw refused refl)
  IsRefused-bind body (inr admitted) = inr admitted

  file-cases : (call : FileCall) → IsRefused (handle_file s f caller call) w ⊎ Admitted
  unfolding handle_file Attachments.add_attachment Attachments.list_attachments
      Attachments.download_attachment Attachments.remove_attachment
  file-cases (add_attachment item_id upload key) = IsRefused-bind _ current_user-cases
  file-cases (list_attachments item_id) = IsRefused-bind _ current_user-cases
  file-cases (download_attachment attachment_id) = IsRefused-bind _ current_user-cases
  file-cases (remove_attachment attachment_id) = IsRefused-bind _ current_user-cases

  -- Under the unique constraints, every call of a private route either is refused, and leaves the
  -- database, the store of files and the hooks as they were, or its token is a valid one of an
  -- open account, and the feature of the route is on. That account then has some scope for each
  -- permission that the table of routes names, none of them is blocked while someone impersonates
  -- it, and nobody impersonates it where the call changes its name, address, password or existence
  -- or asks for a new verification mail.
  pub handle_private-IsAdmitted :
      (call : PrivateCall)
      → IsRefused (handle_private s f caller call) w
        ⊎ ((actor : Actor) × IsCaller s caller w.db con actor × IsEntitledTo call actor)
  unfolding handle_private
  handle_private-IsAdmitted (over_rows call) = elim (handle-IsAdmitted s caller w.db con call) [
    | inl (e, refused) ↦ inl (e, rw refused refl)
    | inr entitled ↦ inr entitled
  ]
  handle_private-IsAdmitted (over_files call) = file-cases call
