-- ===== src/Features.antt =====
-- app/core/features.py. The setting `feature_flags` is an argument.
use fastapi_template.Prelude.{
  String, Bool, not, Option, none, some, List, [], ◌∷◌, ◌++◌, map, str_eq, if◌then◌else◌, any,
  select, split_on, is_empty, str_le, sort_by,
}
use fastapi_template.Errors.{not_found_error, plain_error}
use fastapi_template.Exec.{Exec, refuse_if}
use fastapi_template.Services.Support.{Unicode}

pub data Feature : Type 0 where
  items_feature request_log_feature audit_log_feature : Feature

abbrev pub feature_value : Feature → String
feature_value items_feature = "items"
feature_value request_log_feature = "request-log"
feature_value audit_log_feature = "audit-log"

-- The members of the enum, in the order of declaration
abbrev pub all_features : List Feature
all_features = items_feature ∷ request_log_feature ∷ audit_log_feature ∷ []

-- A frozenset of names, as a list that may repeat one
abbrev pub Names : Type 0
Names = List String

abbrev pub is_in : Names → String → Bool
is_in names s = any (str_eq s) names

module _ (unicode : Unicode) where
  abbrev pub named_parts : List String → Names
  named_parts [] = []
  named_parts (part ∷ parts) =
      let rest = named_parts parts in
      if is_empty (unicode.strip part) then rest else unicode.strip part ∷ rest

  unfoldable pub parse_features : String → Names
  parse_features raw = named_parts (split_on b',' raw)

  abbrev pub is_named : Names → Feature → Bool
  is_named names feature = is_in names (feature_value feature)

  unfoldable pub enabled_features : String → List Feature
  enabled_features flags = select (is_named (parse_features flags)) all_features

  abbrev pub same_feature : Feature → Feature → Bool
  same_feature f g = str_eq (feature_value f) (feature_value g)

  unfoldable pub is_enabled : String → Feature → Bool
  is_enabled flags feature = any (same_feature feature) (enabled_features flags)

  -- [parse_features(raw) for raw in lists if raw is not None]
  abbrev pub parsed_lists : List (Option String) → List Names
  parsed_lists [] = []
  parsed_lists (none ∷ rest) = parsed_lists rest
  parsed_lists (some raw ∷ rest) = parse_features raw ∷ parsed_lists rest

  abbrev pub union : List Names → Names
  union [] = []
  union (names ∷ rest) = names ++ union rest

  abbrev pub capped : List Names → List Feature → Option (List Feature)
  capped [] ceiling = none
  capped (names ∷ rest) ceiling = some (select (is_named (union (names ∷ rest))) ceiling)

  unfoldable pub inherited_features : List (Option String) → List Feature → Option (List Feature)
  inherited_features lists ceiling = capped (parsed_lists lists) ceiling

abbrev pub feature_le : Feature → Feature → Bool
feature_le f g = str_le (feature_value f) (feature_value g)

-- sorted(…), by the values of the members
unfoldable pub available_features : Unicode → String → List String
available_features unicode flags =
    map feature_value (sort_by feature_le (enabled_features unicode flags))

-- `guard` of `require_feature`
unfoldable pub require_feature : {S : Type 0} → Unicode → String → Feature → Exec S (Unit {0})
require_feature unicode flags feature =
    refuse_if (not (is_enabled unicode flags feature)) (plain_error not_found_error "Not Found")
