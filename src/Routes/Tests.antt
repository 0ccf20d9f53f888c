-- ===== src/Routes/Tests.antt =====
-- Runs of the routes of app/api/v1.
use fastapi_template.Prelude.{
  arith, codes, ◌≢◌, ℕ, zero, suc, ◌≡◌, refl, ◌⊎◌, true, false, none, some, [], ◌∷◌, ◌==◌, All,
  is_empty,
}
use fastapi_template.Errors.{err}
use fastapi_template.Models.{email_verification, Item, Db}
use fastapi_template.Exec.{◌>>=◌}
use fastapi_template.Routes.{Setting, Caller, check_all, protected}
use fastapi_template.Routes.Calls.{remove_user, over_rows, handle_private}
use fastapi_template.Routes.Attachments.{
  utf8, flat_map, ascii_name, quoted_utf8, disposition, FileSetting,
}
use fastapi_template.Routes.Attachments.Header.{IsHeaderChar, unquote, disposition_lem}
use fastapi_template.Routes.Admission.{IsRefused, IsCaller}
use fastapi_template.Routes.Admission.Private.{IsEntitledTo, handle_private-IsAdmitted}
use fastapi_template.Services.AttachmentService.{World}
use fastapi_template.Services.AttachmentService.Tests.{limits}
use fastapi_template.Storage.Local.{Disk, local_storage}
use fastapi_template.Storage.Local.Tests.{root, open_device, empty_disk}
use fastapi_template.Features.{parse_features, enabled_features, is_enabled, require_feature}
use fastapi_template.Services.UserService.Lookups.{IsConsistent}
use fastapi_template.Deps.{Actor, password_moved_after, load, get_actor}
use fastapi_template.Http.Concurrency.{is_unquoted, Decimal, missing_if_match, etag_for}
use fastapi_template.Security.{create_access_token, decode_as, decode_access_token}
use fastapi_template.Routes.Items.Tagged.{get_item-update_item}
use fastapi_template.Services.ItemService.{ItemUpdate}
use fastapi_template.Services.AuthService.Tests.{
  deployment, mint_1, unary, of_unary, of_unary-unary,
}
use fastapi_template.Services.UserService.Tests.{staffed, staffed-IsConsistent}
use fastapi_template.Services.ItemService
use fastapi_template.Routes.Items
use fastapi_template.Services.RequestLogService.Tests.{counting}
use Prim.Native.Char.{code}

unary_unquoted : (n : ℕ) → is_unquoted (unary n) ≡ true
unary_unquoted zero = refl
unary_unquoted (suc n) = unary_unquoted n

unary_nonempty : (n : ℕ) → is_empty (unary n) ≡ false
unary_nonempty zero = refl
unary_nonempty (suc n) = refl

abbrev decimal : Decimal
decimal = record {
  str = unary;
  int = of_unary;
  is_space = λ c. code c == 32;
  int-str = of_unary-unary;
  str_unquoted = unary_unquoted;
  str_nonempty = unary_nonempty;
  tag_is_bare = (refl, refl);
}

abbrev setting : Setting
setting = record {
  deployment = deployment;
  flags = "items";
  decimal = decimal;
  codec = counting;
  verification = record {
    purpose = email_verification;
    lifetime = 100;
    resend_cooldown = 0;
    hash_token = λ t. t;
  };
}

abbrev caller : Caller deployment.crypto.Text
caller = record {
  token = create_access_token deployment.crypto deployment.lifetimes "aa" mint_1;
  now = 6000000;
  context = none;
}

abbrev note : Item
note = record {
  id = 1;
  title = "note";
  description = none;
  owner_id = 1;
  deleted_at = none;
  version = 2;
}

abbrev noted : Db
noted = record staffed { items = record { rows = note ∷ []; next_id = 2 } }

noted-IsConsistent : IsConsistent noted
noted-IsConsistent = record {
  addresses = staffed-IsConsistent.addresses;
  user_ids = staffed-IsConsistent.user_ids;
  user_sequence = staffed-IsConsistent.user_sequence;
  role_names = staffed-IsConsistent.role_names;
  role_ids = staffed-IsConsistent.role_ids;
}

abbrev files : FileSetting Disk
files = record { limits = limits; storage = local_storage open_device root }

abbrev world : World Disk
world = record { db = noted; files = empty_disk; hooks = [] }

handle_private-IsAdmitted_example :
    IsRefused (handle_private setting files caller (over_rows (remove_user 2 5 6))) world
    ⊎ ((actor : Actor) × IsCaller setting caller noted noted-IsConsistent actor
        × IsEntitledTo setting files caller world noted-IsConsistent
            (over_rows (remove_user 2 5 6))
            actor)
handle_private-IsAdmitted_example =
    handle_private-IsAdmitted setting files caller world noted-IsConsistent
      (over_rows (remove_user 2 5 6))

abbrev retitled : ItemUpdate
retitled = record { title = some "ode"; description = none }

get_item-update_item_example :
    (actor : Actor) × IsCaller setting caller noted noted-IsConsistent actor
    × (Items.update_item setting caller 1 retitled (some "W/\"aaa\"") noted
        ≡ (ItemService.update 1 actor.user.id retitled (some 2) >>= Items.tagged setting caller)
            noted)
    × (Items.update_item setting caller 1 retitled none noted ≡ (err missing_if_match, noted))
unfolding Items.get_item protected require_feature is_enabled enabled_features parse_features
    get_actor check_all load decode_access_token create_access_token decode_as
    fastapi_template.Services.UserService.get fastapi_template.Repositories.Users.get
    password_moved_after ItemService.get_for_owner fastapi_template.Repositories.Items.get_for_owner
    etag_for
get_item-update_item_example =
    get_item-update_item setting caller noted noted-IsConsistent 1 retitled note "W/\"aaa\"" refl

-- A name with a quote, a backslash, a letter of two bytes and a sign of four
disposition_lem_example :
    All IsHeaderChar (disposition "a\"\\é😀")
    × All (λ c. (c ≢ 34) × (c ≢ 92)) (ascii_name "a\"\\é😀")
    × (unquote (quoted_utf8 "a\"\\é😀") ≡ flat_map utf8 (codes "a\"\\é😀"))
disposition_lem_example = disposition_lem "a\"\\é😀" (ground arith)

quoted_letter : quoted_utf8 "é" ≡ codes "%C3%A9"
unfolding quoted_utf8
quoted_letter = refl
