-- ===== src/Services/PreferencesService/Laws.antt =====
-- What an update of app/services/preferences_service.py leaves.
use fastapi_template.Prelude.{
  ℕ, ◌≡◌, refl, sym, inl, inr, Bool, true, false, Option, none, some, List, [], ◌∷◌, arith, ◌==◌,
  Bool-cases, Option-cases, any, All, select, update, first, select-append, select_none,
}
use fastapi_template.Errors.{ok}
use fastapi_template.Models.{
  UserPreferences, default_locale, default_theme, default_timezone, insert_row, Db, User,
}
use fastapi_template.Services.PreferencesService.{
  PreferencesUpdate, defaults, stored_or_default, sent_or, changed,
}
use fastapi_template.Repositories.Unique.{
  Apart, one_or_none-select, first-select_holds, Apart-append, Apart-replace, first-update,
  others-apart,
}
use fastapi_template.Repositories.Preferences
use fastapi_template.Services.PreferencesService

abbrev pub same_user : UserPreferences → UserPreferences → Bool
same_user p q = p.user_id == q.user_id

abbrev pub same_row : UserPreferences → UserPreferences → Bool
same_row p q = p.id == q.id

-- One row for an account, and the primary key.
pub record HasOnePerUser (db : Db) : Type 0 where
  pub users : Apart same_user db.preferences.rows
  pub ids : Apart same_row db.preferences.rows

abbrev pub found_for : ℕ → Db → Option UserPreferences
found_for user_id db = first (select (Preferences.is_for_user user_id) db.preferences.rows)

-- A field after an update: what was sent, or what was there.
abbrev pub IsGiven : {A : Type 0} → Option A → A → A → Type 0
IsGiven none old new = new ≡ old
IsGiven (some wanted) old new = new ≡ wanted

abbrev pub IsNumbered : ℕ → Option UserPreferences → UserPreferences → Type 0
IsNumbered next none p = p.id ≡ next
IsNumbered next (some stored) p = p.id ≡ stored.id

pub record IsUpdated (sent : PreferencesUpdate) (next : ℕ) (row : Option UserPreferences)
    (old new : UserPreferences) : Type 0 where
  pub locale : IsGiven sent.locale old.locale new.locale
  pub theme : IsGiven sent.theme old.theme new.theme
  pub timezone : IsGiven sent.timezone old.timezone new.timezone
  pub show_request_id : IsGiven sent.show_request_id old.show_request_id new.show_request_id
  pub features : IsGiven sent.features old.features new.features
  pub owner : new.user_id ≡ old.user_id
  pub numbered : IsNumbered next row new

sent_or-IsGiven : {A : Type 0} (o : Option A) (old : A) → IsGiven o old (sent_or o old)
sent_or-IsGiven none old = refl
sent_or-IsGiven (some new) old = refl

module _ (user : User) where
  pub get_for_user_lem :
      (db : Db)
      → Apart same_user db.preferences.rows
      → Preferences.get_for_user user.id db ≡ (ok (found_for user.id db), db)
  unfolding Preferences.get_for_user
  get_for_user_lem db inv = rw (
      one_or_none-select same_user (Preferences.is_for_user user.id) db.preferences.rows
        (λ p q hp hq. ground arith) inv)

  -- The fields that were sent, over those that `get` showed before.
  abbrev pub merged : PreferencesUpdate → ℕ → Option UserPreferences → UserPreferences
  merged sent id none = changed sent (defaults user.id id)
  merged sent id (some stored) = changed sent stored

  -- What `get` shows: the row, or the defaults
  abbrev pub shown : Option UserPreferences → UserPreferences
  shown none = record {
    id = 0;
    user_id = user.id;
    locale = default_locale;
    theme = default_theme;
    timezone = default_timezone;
    show_request_id = true;
    features = none;
  }
  shown (some stored) = stored

  merged-IsUpdated :
      (sent : PreferencesUpdate) (next : ℕ) (o : Option UserPreferences)
      → IsUpdated sent next o (shown o) (merged sent next o)
  merged-IsUpdated sent next none = record {
    locale = sent_or-IsGiven sent.locale default_locale;
    theme = sent_or-IsGiven sent.theme default_theme;
    timezone = sent_or-IsGiven sent.timezone default_timezone;
    show_request_id = sent_or-IsGiven sent.show_request_id true;
    features = sent_or-IsGiven sent.features none;
    owner = refl;
    numbered = refl;
  }
  merged-IsUpdated sent next (some old) = record {
    locale = sent_or-IsGiven sent.locale old.locale;
    theme = sent_or-IsGiven sent.theme old.theme;
    timezone = sent_or-IsGiven sent.timezone old.timezone;
    show_request_id = sent_or-IsGiven sent.show_request_id old.show_request_id;
    features = sent_or-IsGiven sent.features old.features;
    owner = refl;
    numbered = refl;
  }

  stored_or_default-shown : (o : Option UserPreferences) → stored_or_default user.id o ≡ shown o
  stored_or_default-shown none = refl
  stored_or_default-shown (some stored) = refl

  fresh_for :
      (rs : List UserPreferences) (row : UserPreferences)
      → row.user_id ≡ user.id
      → any (Preferences.is_for_user user.id) rs ≡ false
      → All (λ p. same_user p row ≡ false) rs
  fresh_for [] row e h = tt
  fresh_for (p ∷ rs) row e h = (ground (arith, e), fresh_for rs row e (ground arith))

  module _ (sent : PreferencesUpdate) (db : Db) (inv : HasOnePerUser db) where
    abbrev made : ℕ → UserPreferences
    made id = changed sent (defaults user.id id)

    created :
        (p : UserPreferences)
        → found_for user.id db ≡ none
        → (Preferences.create made db).0 ≡ ok p
        → (p ≡ made db.preferences.next_id)
          × (PreferencesService.get user (Preferences.create made db).1
              ≡ (ok p, (Preferences.create made db).1))
    unfolding Preferences.create PreferencesService.get
    created p absent h =
        elim (Bool-cases (any (Preferences.is_for_user user.id) db.preferences.rows)) [
          | inl taken ↦ absurd (ground (arith, taken, h))
          | inr free ↦
              let row : UserPreferences = made db.preferences.next_id in
              let same : row ≡ p = ground (arith, free, h) in
              let after : Db = Preferences.with_preferences db (insert_row made db.preferences) in
              let unique : Apart same_user after.preferences.rows =
                Apart-append same_user db.preferences.rows row inv.users
                  (fresh_for db.preferences.rows row refl free) in
              let there : found_for user.id after ≡ some row = ground (
                arith,
                select-append (Preferences.is_for_user user.id) db.preferences.rows (row ∷ []),
                select_none (Preferences.is_for_user user.id) db.preferences.rows free,
              ) in
              rw (sym same, free) (refl, rw (get_for_user_lem after unique, there) refl)
        ]

    saved :
        (stored p : UserPreferences)
        → found_for user.id db ≡ some stored
        → (Preferences.save (changed sent stored) db).0 ≡ ok p
        → (p ≡ changed sent stored)
          × (PreferencesService.get user (Preferences.save (changed sent stored) db).1
              ≡ (ok p, (Preferences.save (changed sent stored) db).1))
    unfolding Preferences.save PreferencesService.get
    saved stored p found h =
        elim (Bool-cases (any (Preferences.is_row (changed sent stored)) db.preferences.rows)) [
          | inr missing ↦ absurd (ground (arith, missing, h))
          | inl present ↦
              let row : UserPreferences = changed sent stored in
              let same : row ≡ p = ground (arith, present, h) in
              let mine : Preferences.is_for_user user.id stored ≡ true =
                first-select_holds (Preferences.is_for_user user.id) db.preferences.rows stored
                  found in
              let after : Db = Preferences.with_preferences db (record {
                rows = update (Preferences.is_row row) (λ o. row) db.preferences.rows;
                next_id = db.preferences.next_id;
              }) in
              let there : found_for user.id after ≡ some row =
                first-update same_row (Preferences.is_row row) (Preferences.is_for_user user.id)
                  (λ o. row) db.preferences.rows stored (λ r s hr hs. ground arith) inv.ids found
                  (ground arith) mine in
              let unique : Apart same_user after.preferences.rows =
                Apart-replace same_user same_row (Preferences.is_row row) row (λ r s. ground arith)
                  (λ r s hr hs. ground arith) db.preferences.rows
                  (others-apart same_user (Preferences.is_row row) (Preferences.is_for_user user.id)
                    (λ r s. ground arith) db.preferences.rows stored inv.users found (ground arith))
                  inv.ids inv.users in
              rw (sym same, present) (refl, rw (get_for_user_lem after unique, there) refl)
        ]

    -- An update answers with what it leaves.
    updated :
        (p : UserPreferences)
        → (PreferencesService.update user sent db).0 ≡ ok p
        → (p ≡ merged sent db.preferences.next_id (found_for user.id db))
          × (PreferencesService.get user (PreferencesService.update user sent db).1
              ≡ (ok p, (PreferencesService.update user sent db).1))
    unfolding PreferencesService.update
    updated p = rw (get_for_user_lem db inv.users) (elim (Option-cases (found_for user.id db)) [
      | inl absent ↦ rw absent (created p absent)
      | inr (stored, found) ↦ rw found (saved stored p found)
    ])

    -- With one row of preferences for an account and unique ids, an update that succeeds answers
    -- with preferences of which each field is the one that was sent, where it was, and else the
    -- one that a read showed before: that of the row, or the default where there is no row. The
    -- features may be sent as nothing, which is not the same as not sent. The row stays that of
    -- the account, keeps its id, or takes the next one where there was no row, and a read gives
    -- just the answer.
    pub update-get :
        (p : UserPreferences)
        → (PreferencesService.update user sent db).0 ≡ ok p
        → IsUpdated sent db.preferences.next_id
            (found_for user.id db)
            (shown (found_for user.id db))
            p
          × (PreferencesService.get user db ≡ (ok (shown (found_for user.id db)), db))
          × (PreferencesService.get user (PreferencesService.update user sent db).1
              ≡ (ok p, (PreferencesService.update user sent db).1))
    unfolding PreferencesService.get
    update-get p h =
        let (answer, read_back) = updated p h in
        (
          rw answer (merged-IsUpdated sent db.preferences.next_id (found_for user.id db)),
          rw (get_for_user_lem db inv.users, stored_or_default-shown (found_for user.id db)) refl,
          read_back,
        )
