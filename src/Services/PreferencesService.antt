-- ===== src/Services/PreferencesService.antt =====
-- app/services/preferences_service.py, with PreferencesUpdate of app/schemas/preferences.py;
-- `available` is available_features of app/core/features.py.
pub mod Laws
mod Tests
use fastapi_template.Prelude.{ℕ, String, Bool, true, Option, none, some, List}
use fastapi_template.Errors.{user_not_found}
use fastapi_template.Models.{
  UserPreferences, default_locale, default_theme, default_timezone, Db, User,
}
use fastapi_template.Exec.{Exec, pure, ◌>>=◌, ◌>>◌}
use fastapi_template.Services.Support.{or_not_found}
use fastapi_template.Repositories.Users
use fastapi_template.Repositories.Preferences

-- `none` is a field that was not sent or, but for `features`, sent as null: both leave the field as
-- it is. `features` may be sent as null.
pub record PreferencesUpdate : Type 0 where
  pub locale : Option String
  pub theme : Option String
  pub timezone : Option String
  pub show_request_id : Option Bool
  pub features : Option (Option String)

pub record AccountFeaturesRead : Type 0 where
  pub features : Option String
  pub available : List String

-- `_user`
unfoldable pub user_of : ℕ → Exec Db User
user_of user_id = do found ← Users.get user_id; or_not_found found "User not found" user_not_found

-- UserPreferences(user_id=user.id), with the defaults of its columns
abbrev pub defaults : ℕ → ℕ → UserPreferences
defaults user_id id = record {
  id = id;
  user_id = user_id;
  locale = default_locale;
  theme = default_theme;
  timezone = default_timezone;
  show_request_id = true;
  features = none;
}

abbrev pub stored_or_default : ℕ → Option UserPreferences → UserPreferences
stored_or_default user_id none = defaults user_id 0
stored_or_default user_id (some stored) = stored

-- The id of preferences that are not stored is 0.
unfoldable pub get : User → Exec Db UserPreferences
get user = do stored ← Preferences.get_for_user user.id; pure (stored_or_default user.id stored)

abbrev pub sent_or : {A : Type 0} → Option A → A → A
sent_or none old = old
sent_or (some new) old = new

abbrev pub changed : PreferencesUpdate → UserPreferences → UserPreferences
changed sent p = record p {
  locale = sent_or sent.locale p.locale;
  theme = sent_or sent.theme p.theme;
  timezone = sent_or sent.timezone p.timezone;
  show_request_id = sent_or sent.show_request_id p.show_request_id;
  features = sent_or sent.features p.features;
}

abbrev pub write : User → PreferencesUpdate → Option UserPreferences → Exec Db UserPreferences
write user sent none = Preferences.create (λ id. changed sent (defaults user.id id))
write user sent (some stored) = Preferences.save (changed sent stored)

unfoldable pub update : User → PreferencesUpdate → Exec Db UserPreferences
update user sent = do stored ← Preferences.get_for_user user.id; write user sent stored

unfoldable pub features_for : List String → ℕ → Exec Db AccountFeaturesRead
features_for available user_id = do
  user ← user_of user_id
  stored ← get user
  pure (record { features = stored.features; available = available })

abbrev pub only_features : Option (Option String) → PreferencesUpdate
only_features features = record {
  locale = none;
  theme = none;
  timezone = none;
  show_request_id = none;
  features = features;
}

-- PreferencesUpdate(features=data.features) has sent the field, null or not.
unfoldable pub update_features_for : List String → ℕ → Option String → Exec Db AccountFeaturesRead
update_features_for available user_id features = do
  user ← user_of user_id
  stored ← update user (only_features (some features))
  pure (record { features = stored.features; available = available })
