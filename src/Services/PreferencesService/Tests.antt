-- ===== src/Services/PreferencesService/Tests.antt =====
-- Runs of app/services/preferences_service.py.
use fastapi_template.Prelude.{◌≡◌, refl, none, some}
use fastapi_template.Errors.{ok}
use fastapi_template.Models.{UserPreferences}
use fastapi_template.Services.PreferencesService.{PreferencesUpdate, defaults}
use fastapi_template.Services.PreferencesService.Laws.{IsUpdated, shown, update-get}
use fastapi_template.Services.UserService.Tests.{ada, staffed}
use fastapi_template.Services.PreferencesService
use fastapi_template.Repositories.Users
use fastapi_template.Repositories.Preferences

abbrev dark : PreferencesUpdate
dark = record {
  locale = none;
  theme = some "dark";
  timezone = none;
  show_request_id = none;
  features = none;
}

abbrev dark_row : UserPreferences
dark_row = record (defaults 1 1) { theme = "dark" }

update-get_example :
    IsUpdated dark 1 none (shown (Users.load staffed ada) none) dark_row
    × (PreferencesService.get (Users.load staffed ada) staffed
        ≡ (ok (shown (Users.load staffed ada) none), staffed))
    × (PreferencesService.get
          (Users.load staffed ada)
          (PreferencesService.update (Users.load staffed ada) dark staffed).1
        ≡ (ok dark_row, (PreferencesService.update (Users.load staffed ada) dark staffed).1))
unfolding PreferencesService.update Preferences.get_for_user Preferences.create
update-get_example =
    update-get (Users.load staffed ada) dark staffed (record { users = tt; ids = tt }) dark_row refl
