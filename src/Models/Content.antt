-- ===== src/Models/Content.antt =====
-- app/models/item.py, app/models/attachment.py, app/models/user_preferences.py.
use fastapi_template.Prelude.{ℕ, String, Option, Bool}

pub record Item : Type 0 where
  pub id : ℕ
  pub title : String
  pub description : Option String
  pub owner_id : ℕ
  pub deleted_at : Option ℕ
  pub version : ℕ

pub record Attachment : Type 0 where
  pub id : ℕ
  pub key : String
  pub filename : String
  pub content_type : String
  pub size_bytes : ℕ
  pub item_id : ℕ

pub record UserPreferences : Type 0 where
  pub id : ℕ
  pub user_id : ℕ
  pub locale : String
  pub theme : String
  pub timezone : String
  pub show_request_id : Bool
  pub features : Option String

abbrev pub default_locale : String
default_locale = "en-US"

abbrev pub default_theme : String
default_theme = "system"

abbrev pub default_timezone : String
default_timezone = "UTC"
