-- ===== src/Frontend/FeatureFlags/Item/Laws.antt =====
-- What a click on a flag's button does, and that the command beside it is the same request.
use mathlib.Core.Option
use mathlib.Core.List.{append_assoc}
use easytrade.Base.{ℕ, ◌≡◌, refl, ap, ◌∙◌, ◌↔◌, String, Bool, true, false, not, Option, some, List}
use easytrade.Base.{◌<>◌, inl, inr, Bool-cases}
use easytrade.Frontend.FeatureFlags.{handle_flag_toggle, toggle_action}
use easytrade.Base.{[], ◌∷◌, ◌++◌, map, All, if◌then◌else◌, string_eq, arith}
use easytrade.Base.Text.{Text, codes, join, titles}
use easytrade.Base.Text.Words.{IsWord, title, split-join, titles-words}
use easytrade.Base.Result.{Result, ok, err}
use easytrade.Frontend.Queries.{Key, problem_patterns_key, config_key}
use easytrade.Frontend.Cache.Session.Library.{same_key}
use easytrade.Frontend.FeatureFlags.{FeatureFlag, Config, success_variant, modify_disabled}
use easytrade.Frontend.Env.{get_feature_flag_service_url}
use easytrade.Frontend.FeatureFlags.Item.{FlagRequest, set_problem_pattern_enabled, bool_text}
use easytrade.Frontend.FeatureFlags.Item.{get_feature_flag_curl, display_name, item_view, FlagPage}
use easytrade.Frontend.FeatureFlags.Item.{FlagClient, mutate_flag, click_toggle}

-- A request as a command of a shell.
abbrev pub as_curl : FlagRequest → Text
as_curl r =
    codes "curl -X "
    ++ (r.method
        ++ (codes " \""
            ++ (r.url
                ++ (codes "\" -H \"Content-Type: application/json\" -d '{\"enabled\": "
                    ++ (bool_text r.enabled ++ codes "}'")))))

-- The command that an item shows is the request of its button, on a page of any origin.
pub get_feature_flag_curl-as_curl :
    (origin flag_id : Text) (enable : Bool)
    → get_feature_flag_curl origin flag_id enable
      ≡ as_curl (set_problem_pattern_enabled (get_feature_flag_service_url origin) flag_id enable)
unfolding get_feature_flag_curl set_problem_pattern_enabled
get_feature_flag_curl-as_curl origin flag_id enable = simp append_assoc

-- A name of words with underscores between them is shown as these words with their first letters
-- changed and blanks between them.
display_name-join :
    (upper : ℕ → Text) (w : Text) (ws : List Text)
    → All (IsWord b'_') (w ∷ ws)
    → display_name upper (join (codes "_") (w ∷ ws))
      ≡ some (join (codes " ") (map (title upper (λ tail. tail)) (w ∷ ws)))
unfolding display_name
display_name-join upper w ws h =
    ap (λ l. Option.map (join (codes " ")) (titles upper (λ tail. tail) l)) (split-join b'_' w ws h)
    ∙ ap (Option.map (join (codes " "))) (titles-words upper (λ tail. tail) b'_' (w ∷ ws) h)

-- What the package documents of an invalidation with `exact`: it applies to this key alone.
pub record IsExact {C V : Type 0} (client : FlagClient C V) : Type 0 where
  pub is_fresh-exact :
      (k j : Key) (c : C)
      → client.client.is_fresh j (client.invalidate_exact k c)
        ≡ (if same_key k j then false else client.client.is_fresh j c)

abbrev pub is_ok : {E D : Type 0} → Result E D → Bool
is_ok (ok _) = true
is_ok (err _) = false

module _ {C V : Type 0} (client : FlagClient C V) (laws : IsExact client) (base_url : Text) where
  -- The message about an answer, for a flag that was enabled or disabled before.
  abbrev pub toggle_message : {E D : Type 0} → FeatureFlag → Result E D → String
  toggle_message flag reply =
      if is_ok reply
      then "Flag "
        <> flag.name
        <> " "
        <> (if flag.enabled then "disabled" else "enabled")
        <> " successfully."
      else "Error while "
        <> (if flag.enabled then "disabling" else "enabling")
        <> " flag "
        <> flag.name
        <> ": There was an error when setting flag state."

  message_lem :
      {E D : Type 0} (flag : FeatureFlag) (reply : Result E D) (page : FlagPage C)
      → (mutate_flag client base_url flag reply page).state.feedback.msg ≡ toggle_message flag reply
  unfolding mutate_flag handle_flag_toggle toggle_action
  message_lem flag (ok d) page = elim (Bool-cases flag.enabled) [
    | inl on ↦ rw on refl
    | inr off ↦ rw off refl
  ]
  message_lem flag (err e) page = elim (Bool-cases flag.enabled) [
    | inl on ↦ rw on refl
    | inr off ↦ rw off refl
  ]

  mutate_flag_lem :
      {E D : Type 0} (flag : FeatureFlag) (reply : Result E D) (page : FlagPage C)
      → let after = mutate_flag client base_url flag reply page in
        (after.state.target ≡ page.state.target)
        × (after.state.feedback.visible ≡ true)
        × ((after.state.feedback.variant ≡ success_variant) ↔ (is_ok reply ≡ true))
        × (client.client.is_fresh problem_patterns_key after.cache ≡ (
            if is_ok reply then false else client.client.is_fresh problem_patterns_key page.cache))
        × (client.client.is_fresh config_key after.cache
            ≡ client.client.is_fresh config_key page.cache)
  unfolding mutate_flag string_eq
  mutate_flag_lem flag (ok d) page = (
    refl,
    refl,
    ground arith,
    laws.is_fresh-exact problem_patterns_key problem_patterns_key _,
    laws.is_fresh-exact problem_patterns_key config_key _,
  )
  mutate_flag_lem flag (err e) page = (refl, refl, ground arith, refl, refl)

  button-request :
      (enabled : Bool)
      → ◌≡◌ {A = String}
          (if enabled then "Disable" else "Enable")
          (if not enabled then "Enable" else "Disable")
  button-request true = refl
  button-request false = refl

  -- A click on a button that is not disabled puts the opposite state to the flag's path, once, which
  -- is what the button says, and leaves the open item open. If the service agrees, the page says so
  -- with the flag's name and its new state, and the flags are to be fetched again; if it does not,
  -- it says that and they are not. The configuration never is.
  pub click_toggle_lem :
      {E D : Type 0} (origin : Text) (config : Option Config) (flag : FeatureFlag)
      (description : Option String) (reply : Result E D) (page : FlagPage C)
      → (item_view origin page.state config flag description).is_disabled ≡ false
      → let after = click_toggle client base_url config flag reply page in
        let view = item_view origin page.state config flag description in
        (after.requests
          ≡ page.requests
            ++ (record {
              method = codes "PUT";
              url = base_url ++ (codes "/flags/" ++ codes flag.id);
              enabled = not flag.enabled;
            }
                ∷ []))
        × (view.button ≡ (if not flag.enabled then "Enable" else "Disable"))
        × (after.state.target ≡ page.state.target)
        × (after.state.feedback.visible ≡ true)
        × (after.state.feedback.msg ≡ toggle_message flag reply)
        × ((after.state.feedback.variant ≡ success_variant) ↔ (is_ok reply ≡ true))
        × (client.client.is_fresh problem_patterns_key after.cache ≡ (
            if is_ok reply then false else client.client.is_fresh problem_patterns_key page.cache))
        × (client.client.is_fresh config_key after.cache
            ≡ client.client.is_fresh config_key page.cache)
  unfolding click_toggle set_problem_pattern_enabled item_view string_eq
  click_toggle_lem origin config flag description reply page open_to_all =
      let clickable : modify_disabled flag.is_modifiable config ≡ false = open_to_all in
      let (target, visible, variant, flags, kept) = mutate_flag_lem flag reply page in
      (
        rw (clickable, click_toggle) refl,
        button-request flag.enabled,
        rw (clickable, click_toggle) target,
        rw (clickable, click_toggle) visible,
        rw (clickable, click_toggle) (message_lem flag reply page),
        rw (clickable, click_toggle) variant,
        rw (clickable, click_toggle) flags,
        rw (clickable, click_toggle) kept,
      )
