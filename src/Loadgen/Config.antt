-- ===== src/Loadgen/Config.antt =====
-- The configuration of the load generator: src/loadgen/src/config/getConfig.ts and types.ts. The
-- class EnvConfig of the package @demoability/loadgen-core, which reads the environment, is a
-- parameter; what it throws ends the reading.
pub mod Laws
use easytrade.Base.{String, Option, none, some, List, [], ◌∷◌, ◌==◌, string_eq, if◌then◌else◌}
use easytrade.Base.Result.{Result, ok, err, ◌>>=◌}
use easytrade.Loadgen.Numbers.{Floats}
use easytrade.Loadgen.Provider.{RegularVisits, VisitsConfig, deposit_and_long_buy_success}
use easytrade.Loadgen.Provider.{deposit_and_long_buy_timeout, deposit_and_long_buy_error}
use easytrade.Loadgen.Provider.{long_sell_success, long_sell_timeout, long_sell_error}
use easytrade.Loadgen.Provider.{deposit_and_buy_success, sell_and_withdraw_success}

pub record EnvConfig (N E : Type 0) : Type 0 where
  pub ensure_number : String → N → Result E N
  pub ensure_enum : String → List String → String → Result E String
  pub ensure_url : String → Result E String

pub data ProviderConfig (N : Type 0) : Type 0 where
  constant : ProviderConfig N
  -- the learn time factor, the load factor off hours and the minutes of the timeframe
  nyse : N → N → N → ProviderConfig N

-- A provider configuration of `undefined` is none.
pub record Config (N : Type 0) : Type 0 where
  pub concurrent_visits : N
  pub concurrent_browsers : N
  pub browser_time_to_live_minutes : N
  pub log_level : String
  pub rare_visits_interval_minutes : N
  pub headless_mode : String
  pub visits_config : VisitsConfig N
  pub provider_config : Option (ProviderConfig N)
  pub regular_visits_weights : List (RegularVisits × N)

abbrev pub load_types : List String
load_types = "constant" ∷ "NYSE" ∷ []

abbrev pub log_levels : List String
log_levels = "silly" ∷ "debug" ∷ "verbose" ∷ "http" ∷ "info" ∷ "warn" ∷ "error" ∷ []

abbrev pub headless_modes : List String
headless_modes = "headless" ∷ "headfull" ∷ []

-- The variables of the weights, in the order in which they are read.
abbrev pub weight_variables : List (RegularVisits × String)
weight_variables =
    (deposit_and_buy_success, "DEPOSIT_AND_BUY_SUCCESS_WEIGHT")
    ∷ (deposit_and_long_buy_error, "DEPOSIT_AND_LONG_BUY_ERROR_WEIGHT")
    ∷ (deposit_and_long_buy_success, "DEPOSIT_AND_LONG_BUY_SUCCESS_WEIGHT")
    ∷ (deposit_and_long_buy_timeout, "DEPOSIT_AND_LONG_BUY_TIMEOUT_WEIGHT")
    ∷ (long_sell_error, "LONG_SELL_ERROR_WEIGHT")
    ∷ (long_sell_success, "LONG_SELL_SUCCESS_WEIGHT")
    ∷ (long_sell_timeout, "LONG_SELL_TIMEOUT_WEIGHT")
    ∷ (sell_and_withdraw_success, "SELL_AND_WITHDRAW_SUCCESS_WEIGHT")
    ∷ []

module _ {N E : Type 0} (n : Floats N) (env : EnvConfig N E) where
  open env use {ensure_number, ensure_enum, ensure_url}

  unfoldable pub nyse_config : Result E (ProviderConfig N)
  nyse_config = do
    learn_time_factor ← ensure_number "RATE_LIMIT_LEARN_TIME_FACTOR" (n.decimal 2 0)
    off_hours_load_factor ← ensure_number "NYSE_OFFHOURS_LOAD_FACTOR" (n.decimal 7 1)
    timeframe_minutes ← ensure_number "RATE_LIMIT_TIMEFRAME_MINUTES" (n.decimal 5 0)
    ok (nyse learn_time_factor off_hours_load_factor timeframe_minutes)

  unfoldable pub get_provider_config : Result E (Option (ProviderConfig N))
  get_provider_config = do
    provider_type ← ensure_enum "LOAD_TYPE" load_types "NYSE"
    (if provider_type == "constant"
        then ok (some constant)
        else if provider_type == "NYSE"
        then (nyse_config >>= λ p. ok (some p))
        else ok none)

  unfoldable pub get_visits_config : Result E (VisitsConfig N)
  get_visits_config = do
    deposit_min_value ← ensure_number "DEPOSIT_MIN_VALUE" (n.decimal 500 0)
    deposit_max_value ← ensure_number "DEPOSIT_MAX_VALUE" (n.decimal 1500 0)
    asset_sell_ratio ← ensure_number "ASSET_SELL_RATIO" (n.decimal 1 1)
    withdraw_min_value ← ensure_number "WITHDRAW_MIN_VALUE" (n.decimal 500 0)
    transaction_min_duration ← ensure_number "TRANSACTION_MIN_DURATION" (n.decimal 1 0)
    transaction_max_duration ← ensure_number "TRANSACTION_MAX_DURATION" (n.decimal 24 0)
    easytrade_url ← ensure_url "EASYTRADE_URL"
    ok (record {
      deposit_min_value = deposit_min_value;
      deposit_max_value = deposit_max_value;
      asset_sell_ratio = asset_sell_ratio;
      withdraw_min_value = withdraw_min_value;
      transaction_min_duration = transaction_min_duration;
      transaction_max_duration = transaction_max_duration;
      easytrade_url = easytrade_url;
    })

  unfoldable pub get_weights : List (RegularVisits × String) → Result E (List (RegularVisits × N))
  get_weights [] = ok []
  get_weights ((visit, variable) ∷ variables) = do
    weight ← ensure_number variable (n.decimal 1 0)
    weights ← get_weights variables
    ok ((visit, weight) ∷ weights)

  unfoldable pub get_config : Result E (Config N)
  unfolding get_provider_config get_visits_config get_weights nyse_config
  get_config = do
    concurrent_visits ← ensure_number "CONCURRENCY" (n.decimal 5 0)
    concurrent_browsers ← ensure_number "BROWSERS" (n.decimal 1 0)
    browser_time_to_live_minutes ← ensure_number "BROWSER_TTL_MINUTES" (n.decimal 60 0)
    log_level ← ensure_enum "LOG_LEVEL" log_levels "info"
    rare_visits_interval_minutes ← ensure_number "RARE_VISITS_INTERVAL_MINUTES" (n.decimal 30 0)
    headless_mode ← ensure_enum "HEADLESS_MODE" headless_modes "headless"
    visits_config ← get_visits_config
    provider_config ← get_provider_config
    regular_visits_weights ← get_weights weight_variables
    ok (record {
      concurrent_visits = concurrent_visits;
      concurrent_browsers = concurrent_browsers;
      browser_time_to_live_minutes = browser_time_to_live_minutes;
      log_level = log_level;
      rare_visits_interval_minutes = rare_visits_interval_minutes;
      headless_mode = headless_mode;
      visits_config = visits_config;
      provider_config = provider_config;
      regular_visits_weights = regular_visits_weights;
    })
