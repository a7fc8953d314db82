-- ===== src/Frontend/FeatureFlags/Item.antt =====
-- One flag of the page: src/frontend/src/components/featureFlags/FeatureFlagItem.tsx, with the list
-- of FeatureFlagList.tsx and the reloading of pages/FeatureFlags.tsx. The request is that of
-- api/backend/problemPatterns.ts.
pub mod Laws
use easytrade.Base.{ℕ, String, Bool, true, false, not, Option, none, some, List, [], ◌∷◌, ◌++◌, map}
use easytrade.Base.{◌==◌, string_eq, if◌then◌else◌}
use easytrade.Base.Text.{Text, codes, split, join, titles}
use easytrade.Base.Result.{Result, ok, err}
use easytrade.Frontend.Queries.{Key, QueryClient, problem_patterns_key, flags_key}
use easytrade.Frontend.FeatureFlags.{
  State, FeatureFlag, Config, Action, success, feedback_reducer, expand, is_expanded,
  modify_disabled, handle_flag_toggle, toggle_action, initial_state,
}
use mathlib.Core.Option

-- `setProblemPatternEnabled`
pub record FlagRequest : Type 0 where
  pub method : Text
  pub url : Text
  pub enabled : Bool

unfoldable pub set_problem_pattern_enabled : Text → Text → Bool → FlagRequest
set_problem_pattern_enabled base_url flag_id enabled = record {
  method = codes "PUT";
  url = base_url ++ (codes "/flags/" ++ flag_id);
  enabled = enabled;
}

abbrev pub bool_text : Bool → Text
bool_text true = codes "true"
bool_text false = codes "false"

-- `getFeatureFlagCurl`
unfoldable pub get_feature_flag_curl : Text → Text → Bool → Text
get_feature_flag_curl origin flag_id enable =
    codes "curl -X PUT \""
    ++ (origin
        ++ (codes "/feature-flag-service/v1/flags/"
            ++ (flag_id
                ++ (codes "\" -H \"Content-Type: application/json\" -d '{\"enabled\": "
                    ++ (bool_text enable ++ codes "}'")))))

-- `displayName`, for `toUpperCase` of a letter; a name with an empty part makes the item throw.
unfoldable pub display_name : (ℕ → Text) → Text → Option Text
display_name upper name =
    Option.map (join (codes " ")) (titles upper (λ tail. tail) (split b'_' name))

-- What an item shows of its flag.
pub record ItemView : Type 0 where
  pub modifiable_chip : String
  pub enabled_chip : String
  pub flag_id : String
  pub shown_description : String
  pub curl : Text
  pub button : String
  pub is_disabled : Bool
  pub is_open : Bool

-- A description that is missing is `none`.
unfoldable pub item_view : Text → State → Option Config → FeatureFlag → Option String → ItemView
unfolding modify_disabled get_feature_flag_curl is_expanded
item_view origin state config flag description = record {
  modifiable_chip = if flag.is_modifiable then "modifiable" else "non-modifiable";
  enabled_chip = if flag.enabled then "enabled" else "disabled";
  flag_id = flag.id;
  shown_description = elim description [
    | none ↦ "There is no description for this flag currently."
    | some text ↦ text
  ];
  curl = get_feature_flag_curl origin (codes flag.id) (not flag.enabled);
  button = if flag.enabled then "Disable" else "Enable";
  is_disabled = modify_disabled flag.is_modifiable config;
  is_open = is_expanded state flag.name;
}

-- The page: the list's state, the cache, the clipboard and the requests that were sent.
pub record FlagPage (C : Type 0) : Type 0 where
  pub state : State
  pub cache : C
  pub clipboard : Option Text
  pub requests : List FlagRequest

-- `invalidateQueries` with `exact`, and `refetchQueries`
pub record FlagClient (C V : Type 0) : Type 0 where
  pub client : QueryClient C V
  pub invalidate_exact : Key → C → C
  pub refetch_queries : Key → C → C

-- A click on the icon beside the command.
unfoldable pub copy_curl : {C : Type 0} → Text → FeatureFlag → FlagPage C → FlagPage C
unfolding feedback_reducer get_feature_flag_curl
copy_curl origin flag page = record page {
  clipboard = some (get_feature_flag_curl origin (codes flag.id) (not flag.enabled));
  state = feedback_reducer page.state (success "Copied to clipboard!");
}

module _ {C V : Type 0} (client : FlagClient C V) (base_url : Text) where
  -- The mutation, for the answer of the flag service.
  unfoldable pub mutate_flag : {E D : Type 0} → FeatureFlag → Result E D → FlagPage C → FlagPage C
  unfolding feedback_reducer handle_flag_toggle toggle_action set_problem_pattern_enabled
  mutate_flag flag reply page =
      let enabled = not flag.enabled in
      let outcome = handle_flag_toggle reply in
      record page {
        state = feedback_reducer page.state (toggle_action flag.name flag.enabled outcome);
        cache = elim outcome [
          | none ↦ client.invalidate_exact problem_patterns_key page.cache
          | some _ ↦ page.cache
        ];
        requests =
            page.requests ++ (set_problem_pattern_enabled base_url (codes flag.id) enabled ∷ []);
      }

  -- A click on the button, which may be disabled.
  unfoldable pub click_toggle :
      {E D : Type 0} → Option Config → FeatureFlag → Result E D → FlagPage C → FlagPage C
  unfolding mutate_flag modify_disabled
  click_toggle config flag reply page =
      if modify_disabled flag.is_modifiable config then page else mutate_flag flag reply page

  -- The mutation of the page's reload button.
  unfoldable pub reload_flags : FlagPage C → FlagPage C
  reload_flags page = record page { cache = client.refetch_queries flags_key page.cache }

-- `FeatureFlagList`, for the descriptions that the flags may lack
unfoldable pub feature_flag_list : Text → State → Option Config → List FeatureFlag → List ItemView
unfolding item_view
feature_flag_list origin state config flags =
    map (λ flag. item_view origin state config flag (some flag.description)) flags

-- The notice of `FeatureFlags`
unfoldable pub shows_notice : Option Config → Bool
shows_notice none = true
shows_notice (some config) = not config.feature_flag_management
