-- ===== src/Offer/Plugin.antt =====
-- Plugins: src/offerservice/src/plugins (plugin.ts, const.ts, plugins/ergoAggregatorSlowdown.ts,
-- open-feature/pluginProvider.ts, feature-flag/client.ts). The OpenFeature client is a parameter;
-- what a request waits for and its call of `next` are a list of effects.
pub mod Laws
use easytrade.Base.{ℕ, ◌≡◌, refl, String, ◌<>◌, Bool, true, false, Option, none, some, List, []}
use easytrade.Base.{◌∷◌, ◌++◌, includes, string_eq, option_eq, arith, if◌then◌else◌, ◌↔◌}
use easytrade.Base.Result.{Result, ok, err}
use easytrade.Offer.Sample.{sample_array}

pub record FeatureFlag : Type 0 where
  pub id : String
  pub enabled : Bool
  pub name : String
  pub description : String
  pub is_modifiable : Bool
  pub tag : String

-- `FeatureFlagClient.getFlag`: a failed request is caught and gives no flag.
unfoldable pub get_flag :
    {F : Type 0} → String → (String → Result F FeatureFlag) → String → Option FeatureFlag
get_flag flags_url get flag_id = elim (get (flags_url <> "/" <> flag_id)) [
  | ok flag ↦ some flag
  | err _ ↦ none
]

-- `PluginProvider.resolveBooleanEvaluation`, its value
unfoldable pub resolve_boolean : (String → Option FeatureFlag) → String → Bool → Bool
resolve_boolean flag key default_value = elim (flag key) [
  | some f ↦ f.enabled
  | none ↦ default_value
]

pub record Slowdown : Type 0 where
  pub delay_ms : ℕ
  pub affected_platforms : List (Option String)

abbrev pub plugin_name : String
plugin_name = "ergo_aggregator_slowdown"

abbrev pub platforms : List String
platforms =
    "dynatestsieger.at" ∷ "tradeCom.co.uk" ∷ "CryptoTrading.com" ∷ "CheapTrading.mi"
    ∷ "Stratton-oakmount.com" ∷ []

abbrev pub affected_platform_count : ℕ
affected_platform_count = 2

abbrev pub affected_platform_delay_ms : ℕ
affected_platform_delay_ms = 2000

-- The registered plugin, for the draws of its sample.
unfoldable pub slowdown_plugin : (ℕ → ℕ) → Slowdown
slowdown_plugin pick = record {
  delay_ms = affected_platform_delay_ms;
  affected_platforms = sample_array pick platforms affected_platform_count;
}

unfoldable pub is_platform_affected : Slowdown → String → Bool
is_platform_affected plugin platform = includes plugin.affected_platforms (some platform)

-- What the middleware of a request does, in order.
pub data Effect : Type 0 where
  delay : ℕ → Effect
  next : Effect

-- `ErgoAggregatorSlowdownPlugin.run`
unfoldable pub run : Slowdown → String → List Effect
unfolding is_platform_affected
run plugin platform =
    if is_platform_affected plugin platform then delay plugin.delay_ms ∷ [] else []

-- `getPluginRunner`: `client key default` is the value that the OpenFeature client gives.
unfoldable pub plugin_runner : (String → Bool → Bool) → Slowdown → String → List Effect
unfolding run
plugin_runner client plugin platform =
    (if client plugin_name false then run plugin platform else []) ++ (next ∷ [])
