-- ===== src/Loadgen/Config/Laws.antt =====
-- The configuration that the environment leads to.
use easytrade.Base.{◌≡◌, ◌≢◌, refl, String, some, List, map, string_eq}
use easytrade.Base.Result.{ok}
use easytrade.Base.{◌==◌, false, arith}
use easytrade.Loadgen.Numbers.{Floats}
use easytrade.Loadgen.Provider.{VisitsConfig}
use easytrade.Loadgen.Config.{EnvConfig, Config, nyse, get_config, get_visits_config, get_weights}
use easytrade.Loadgen.Config.{get_provider_config, nyse_config, weight_variables}

-- What the code relies on: a variable that is not set has its default.
pub record HasDefaults {N E : Type 0} (is_set : String → Type 0) (env : EnvConfig N E)
    : Type 0 where
  pub number_default :
      (name : String) (value : N) → ¬ is_set name → env.ensure_number name value ≡ ok value
  pub enum_default :
      (name : String) (options : List String) (value : String)
      → ¬ is_set name
      → env.ensure_enum name options value ≡ ok value

differs : (s t : String) → (s == t) ≡ false → s ≢ t
differs s t h e = ground arith

abbrev pub default_visits : {N : Type 0} → Floats N → String → VisitsConfig N
default_visits n url = record {
  deposit_min_value = n.decimal 500 0;
  deposit_max_value = n.decimal 1500 0;
  asset_sell_ratio = n.decimal 1 1;
  withdraw_min_value = n.decimal 500 0;
  transaction_min_duration = n.decimal 1 0;
  transaction_max_duration = n.decimal 24 0;
  easytrade_url = url;
}

abbrev pub default_config : {N : Type 0} → Floats N → String → Config N
default_config n url = record {
  concurrent_visits = n.decimal 5 0;
  concurrent_browsers = n.decimal 1 0;
  browser_time_to_live_minutes = n.decimal 60 0;
  log_level = "info";
  rare_visits_interval_minutes = n.decimal 30 0;
  headless_mode = "headless";
  visits_config = default_visits n url;
  provider_config = some (nyse (n.decimal 2 0) (n.decimal 7 1) (n.decimal 5 0));
  regular_visits_weights = map (λ w. (w.0, n.decimal 1 0)) weight_variables;
}

module _ {N E : Type 0} (n : Floats N) (env : EnvConfig N E) (is_set : String → Type 0) where
  module _ (defaults : HasDefaults is_set env)
      (only : (name : String) → is_set name → name ≡ "EASYTRADE_URL") where
    number :
        (name : String) (value : N)
        → (name == "EASYTRADE_URL") ≡ false
        → env.ensure_number name value ≡ ok value
    number name value other =
        defaults.number_default name value (λ set. differs _ _ other (only name set))

    enum :
        (name : String) (options : List String) (value : String)
        → (name == "EASYTRADE_URL") ≡ false
        → env.ensure_enum name options value ≡ ok value
    enum name options value other =
        defaults.enum_default name options value (λ set. differs _ _ other (only name set))

    visits_default :
        (url : String)
        → env.ensure_url "EASYTRADE_URL" ≡ ok url
        → get_visits_config n env ≡ ok (default_visits n url)
    unfolding get_visits_config string_eq
    visits_default url reached =
        rw
          (
            number "DEPOSIT_MIN_VALUE" _ refl,
            number "DEPOSIT_MAX_VALUE" _ refl,
            number "ASSET_SELL_RATIO" _ refl,
            number "WITHDRAW_MIN_VALUE" _ refl,
            number "TRANSACTION_MIN_DURATION" _ refl,
            number "TRANSACTION_MAX_DURATION" _ refl,
            reached,
          )
          refl

    provider_default :
        get_provider_config n env ≡ ok (some (nyse (n.decimal 2 0) (n.decimal 7 1) (n.decimal 5 0)))
    unfolding get_provider_config nyse_config string_eq
    provider_default =
        rw
          (
            enum "LOAD_TYPE" _ "NYSE" refl,
            number "RATE_LIMIT_LEARN_TIME_FACTOR" _ refl,
            number "NYSE_OFFHOURS_LOAD_FACTOR" _ refl,
            number "RATE_LIMIT_TIMEFRAME_MINUTES" _ refl,
          )
          refl

    weights_default :
        get_weights n env weight_variables ≡ ok (map (λ w. (w.0, n.decimal 1 0)) weight_variables)
    unfolding get_weights string_eq
    weights_default =
        rw
          (
            number "DEPOSIT_AND_BUY_SUCCESS_WEIGHT" _ refl,
            number "DEPOSIT_AND_LONG_BUY_ERROR_WEIGHT" _ refl,
            number "DEPOSIT_AND_LONG_BUY_SUCCESS_WEIGHT" _ refl,
            number "DEPOSIT_AND_LONG_BUY_TIMEOUT_WEIGHT" _ refl,
            number "LONG_SELL_ERROR_WEIGHT" _ refl,
            number "LONG_SELL_SUCCESS_WEIGHT" _ refl,
            number "LONG_SELL_TIMEOUT_WEIGHT" _ refl,
            number "SELL_AND_WITHDRAW_SUCCESS_WEIGHT" _ refl,
          )
          refl

  -- If no variable is set but the URL, the configuration is read, and it is: five visits and one
  -- browser at a time, browsers that live for 60 minutes, a rare visit every 30 minutes, headless,
  -- deposits from 500 to 1500, withdrawals from 500, a tenth of the assets sold, durations from 1
  -- to 24, a load of 0.7 off hours in frames of 5 minutes after 2 of learning, and all weights 1.
  get_config-defaults :
      (url : String)
      → HasDefaults is_set env
      → ((name : String) → is_set name → name ≡ "EASYTRADE_URL")
      → env.ensure_url "EASYTRADE_URL" ≡ ok url
      → get_config n env ≡ ok (default_config n url)
  unfolding get_config string_eq
  get_config-defaults url defaults only reached =
      rw
        (
          number defaults only "CONCURRENCY" _ refl,
          number defaults only "BROWSERS" _ refl,
          number defaults only "BROWSER_TTL_MINUTES" _ refl,
          enum defaults only "LOG_LEVEL" _ "info" refl,
          number defaults only "RARE_VISITS_INTERVAL_MINUTES" _ refl,
          enum defaults only "HEADLESS_MODE" _ "headless" refl,
          visits_default defaults only url reached,
          provider_default defaults only,
          weights_default defaults only,
        )
        refl
