-- ===== src/Frontend/FeatureFlags.antt =====
-- The feature flag page: src/frontend/src/components/featureFlags/FeatureFlagList.tsx (its reducer)
-- and FeatureFlagItem.tsx (what disables the switch), with src/frontend/src/api/featureFlags
-- (config.ts, problemPatterns.ts). The replies of the flag service are parameters.
pub mod Laws
pub mod Item
use easytrade.Base.{String, Bool, true, false, not, ◌||◌, Option, none, some, List, [], map, find}
use easytrade.Base.{◌==◌, string_eq, if◌then◌else◌, ◌<>◌}
use easytrade.Base.Result.{Result, ok, err}

pub data Variant : Type 0 where
  success_variant error_variant : Variant

pub record Feedback : Type 0 where
  pub visible : Bool
  pub variant : Variant
  pub msg : String

-- `State`, with the `target` of its `expand`
pub record State : Type 0 where
  pub target : String
  pub feedback : Feedback

abbrev pub initial_state : State
initial_state = record {
  target = "";
  feedback = record { visible = false; variant = success_variant; msg = "" };
}

pub data Action : Type 0 where
  success : String → Action
  error : String → Action
  reset : Action
  expand : String → Action
  collapse : Action

unfoldable pub feedback_reducer : State → Action → State
feedback_reducer s (success msg) = record s {
  feedback = record { visible = true; variant = success_variant; msg = msg };
}
feedback_reducer s (error msg) = record s {
  feedback = record { visible = true; variant = error_variant; msg = msg };
}
feedback_reducer s reset = record s {
  feedback = record { visible = false; variant = s.feedback.variant; msg = "" };
}
feedback_reducer s (expand target) = record s { target = if s.target == target then "" else target }
feedback_reducer s collapse = record s { target = "" }

-- The snackbar's `onClose`
unfoldable pub close_feedback : String → State → State
unfolding feedback_reducer
close_feedback reason s = if not (reason == "clickaway") then feedback_reducer s reset else s

-- `expanded` of the item with this name
unfoldable pub is_expanded : State → String → Bool
is_expanded s name = s.target == name

pub record FeatureFlag : Type 0 where
  pub id : String
  pub name : String
  pub description : String
  pub enabled : Bool
  pub is_modifiable : Bool

-- The flags of the backend have a tag as well.
pub record RawFeatureFlag : Type 0 where
  pub id : String
  pub enabled : Bool
  pub name : String
  pub description : String
  pub is_modifiable : Bool
  pub tag : String

pub record ConfigFlag : Type 0 where
  pub name : String
  pub id : String
  pub enabled : Bool

pub record Config : Type 0 where
  pub feature_flag_management : Bool

unfoldable pub feature_flag_mapper : RawFeatureFlag → FeatureFlag
feature_flag_mapper raw = record {
  id = raw.id;
  name = raw.name;
  description = raw.description;
  enabled = raw.enabled;
  is_modifiable = raw.is_modifiable;
}

unfoldable pub get_feature_flags : {E : Type 0} → Result E (List RawFeatureFlag) → List FeatureFlag
unfolding feature_flag_mapper
get_feature_flags (ok results) = map feature_flag_mapper results
get_feature_flags (err e) = []

-- The `error` of the response.
unfoldable pub handle_flag_toggle : {E D : Type 0} → Result E D → Option String
handle_flag_toggle (ok _) = none
handle_flag_toggle (err e) = some "There was an error when setting flag state"

unfoldable pub get_raw_config_flags :
    {E : Type 0} → Result E (List RawFeatureFlag) → List ConfigFlag
get_raw_config_flags (ok results) =
    map (λ raw. record { name = raw.name; id = raw.id; enabled = raw.enabled }) results
get_raw_config_flags (err e) = []

unfoldable pub get_config_flag : List ConfigFlag → String → Bool → Bool
get_config_flag flags id default_value = elim (find (λ flag. flag.id == id) flags) [
  | none ↦ default_value
  | some flag ↦ flag.enabled
]

abbrev pub management_id : String
management_id = "frontend_feature_flag_management"

unfoldable pub get_config : {E : Type 0} → Result E (List RawFeatureFlag) → Config
unfolding get_raw_config_flags get_config_flag
get_config reply = record {
  feature_flag_management = get_config_flag (get_raw_config_flags reply) management_id true;
}

-- `!isModifiable || !config?.featureFlagManagement`, where the configuration may not be loaded yet
unfoldable pub modify_disabled : Bool → Option Config → Bool
modify_disabled is_modifiable none = true
modify_disabled is_modifiable (some config) =
    not is_modifiable || not config.feature_flag_management

-- The message on the page after a mutation, from `handleFlagToggle(flagId, !enabled)`
unfoldable pub toggle_action : String → Bool → Option String → Action
toggle_action name enabled none =
    success (
      "Flag " <> name <> " " <> (if not enabled then "enabled" else "disabled") <> " successfully.")
toggle_action name enabled (some e) = error (
    "Error while "
    <> (if not enabled then "enabling" else "disabling")
    <> " flag "
    <> name
    <> ": "
    <> e
    <> ".")
