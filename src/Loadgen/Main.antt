-- ===== src/Loadgen/Main.antt =====
-- The start of the load generator: src/loadgen/src/main.ts and provider/getProvider.ts, with the
-- functions of provider/regularVisits.ts and rareVisits.ts that draw a user for each visit. The
-- providers, the pool of browsers and the runner of the package @demoability/loadgen-core are
-- parameters: what they are given is the result. What throws a TypeError gives none.
pub mod Provided
pub mod Laws
use mathlib.Core.Option
use easytrade.Base.{ℕ, String, Bool, Option, none, some, List, [], ◌∷◌, ◌==◌, string_eq}
use easytrade.Base.Result.{Result, ok, ◌>>=◌}
use easytrade.Loadgen.Numbers.{Floats}
use easytrade.Loadgen.User.{User, get_random_user}
use easytrade.Loadgen.Provider.{RegularVisits, Visit, regular_visit, rare_visit, get_card_type}
use easytrade.Loadgen.Provider.{load_factor}
use easytrade.Loadgen.Config.{EnvConfig, Config, get_config, constant, nyse}

-- The draws of one visit: for the user and for the type of the card.
pub record Draws : Type 0 where
  pub user : ℕ → ℕ
  pub card_type : ℕ → ℕ

pub data TimeUnit : Type 0 where
  minute hour : TimeUnit

pub record TimeSpan (N : Type 0) : Type 0 where
  pub unit : TimeUnit
  pub quantity : N

-- A level that is not given is none.
pub record LoggerOptions : Type 0 where
  pub name : String
  pub log_level : Option String

-- The classes of providers, `P` being their instances.
pub record ProviderLibrary (N P : Type 0) : Type 0 where
  pub weighted : List (RegularVisits × N) → (RegularVisits → Draws → Option (Visit N)) → P
  pub function_provider : (Draws → Option (Visit N)) → P
  pub interval : P → N → P
  pub priority : List P → P
  pub rate_limited : P → TimeSpan N → (ℕ → ℕ → N) → N → LoggerOptions → P

pub record BrowserPool (N : Type 0) : Type 0 where
  pub name : String
  pub headless : Bool
  pub product : String
  pub logger_options : LoggerOptions
  pub browser_time_to_live_ms : N
  pub concurrent_browsers : N

-- The two spans of the runner, its unit and its spans; the aggregator, which starts with the time,
-- is left out.
pub record StatsRunner (N : Type 0) : Type 0 where
  pub interval : TimeSpan N
  pub retention : TimeSpan N
  pub unit : TimeUnit
  pub spans : List (TimeSpan N)
  pub logger_options : LoggerOptions

pub record LoadgenOptions (N P : Type 0) : Type 0 where
  pub visit_provider : P
  pub logger_options : LoggerOptions
  pub context_pool : BrowserPool N
  pub concurrency : N
  pub viewport : ℕ × ℕ
  pub long_delay_ms : ℕ
  pub short_delay_ms : ℕ
  pub stand_delay_ms : ℕ
  pub stats_runner : StatsRunner N

module _ {N : Type 0} (n : Floats N) where
  unfoldable pub get_rare_visit_interval : Config N → N
  get_rare_visit_interval config =
      n.mul (n.mul config.rare_visits_interval_minutes (n.decimal 60 0)) (n.decimal 1000 0)

  abbrev browser_pool : Config N → BrowserPool N
  browser_pool config = record {
    name = "main";
    headless = config.headless_mode == "headless";
    product = "chrome";
    logger_options = record { name = "browser"; log_level = some config.log_level };
    browser_time_to_live_ms = n.mul config.browser_time_to_live_minutes (n.decimal 60000 0);
    concurrent_browsers = config.concurrent_browsers;
  }

  abbrev stats_runner : StatsRunner N
  stats_runner = record {
    interval = record { unit = minute; quantity = n.decimal 5 0 };
    retention = record { unit = hour; quantity = n.decimal 24 0 };
    unit = minute;
    spans =
        record { unit = minute; quantity = n.decimal 5 0 }
        ∷ record { unit = hour; quantity = n.decimal 1 0 }
        ∷ [];
    logger_options = record { name = "stats"; log_level = none };
  }

  abbrev pub loadgen_options : {P : Type 0} → Config N → P → LoadgenOptions N P
  loadgen_options config provider = record {
    visit_provider = provider;
    logger_options = record { name = "visit"; log_level = some config.log_level };
    context_pool = browser_pool config;
    concurrency = config.concurrent_visits;
    viewport = (1920, 1080);
    long_delay_ms = 3000;
    short_delay_ms = 500;
    stand_delay_ms = 1500;
    stats_runner = stats_runner;
  }

  module _ (users : List User) where
    -- No visit is described for the user that is drawn from an empty list.
    unfoldable pub get_regular_provider_function :
        Config N → RegularVisits → Draws → Option (Visit N)
    get_regular_provider_function config name draws =
        Option.map (λ user. regular_visit n config.visits_config user name)
          (get_random_user users draws.user)

    unfoldable pub get_rare_provider_function : Config N → Draws → Option (Visit N)
    get_rare_provider_function config draws =
        Option.bind (get_random_user users draws.user) (λ user.
          Option.map (rare_visit n config.visits_config user) (get_card_type draws.card_type))

    module _ {P : Type 0} (lib : ProviderLibrary N P) where
      -- The provider of rare and of regular visits
      abbrev pub priority_provider : Config N → P
      priority_provider config =
          let regular_visit_provider =
            lib.weighted config.regular_visits_weights (get_regular_provider_function config) in
          let rare_visits_provider =
            lib.interval (lib.function_provider (get_rare_provider_function config))
              (get_rare_visit_interval config) in
          lib.priority (rare_visits_provider ∷ regular_visit_provider ∷ [])

      unfoldable pub get_provider : Config N → Option P
      get_provider config = elim config.provider_config [
        | none ↦ none
        | some constant ↦ some (priority_provider config)
        | some (nyse learn_time_factor off_hours_load_factor timeframe_minutes) ↦ some (
            lib.rate_limited (priority_provider config)
              (record { unit = minute; quantity = timeframe_minutes })
              (load_factor (n.decimal 1 0) off_hours_load_factor) learn_time_factor
              (record { name = "provider"; log_level = some config.log_level }))
      ]

      -- What `main` creates the load generator from
      unfoldable pub main : {E : Type 0} → EnvConfig N E → Result E (Option (LoadgenOptions N P))
      main env = get_config n env >>= λ config.
          ok (Option.map (loadgen_options config) (get_provider config))
