-- ===== src/Loadgen/Main/Laws.antt =====
-- The runs of the visits that the load generator of src/loadgen/src/main.ts is given.
use mathlib.Core.List.{Mem}
use easytrade.Base.{ℕ, suc, ◌<◌, ◌≡◌, String, some, List}
use easytrade.Base.Result.{ok}
use easytrade.Loadgen.Browser.{Browser}
use easytrade.Loadgen.Browser.Total.{IsWorking}
use easytrade.Loadgen.Numbers.{Floats}
use easytrade.Loadgen.User.{User}
use easytrade.Loadgen.Calculators.{BuyOptions, SellOptions, Deal, success_buy_calculator}
use easytrade.Loadgen.Calculators.{timeout_buy_calculator, error_buy_calculator}
use easytrade.Loadgen.Calculators.{success_sell_calculator, timeout_sell_calculator}
use easytrade.Loadgen.Calculators.{error_sell_calculator}
use easytrade.Loadgen.Provider.{VisitsConfig, Visit, regular_visit, rare_visit}
use easytrade.Loadgen.Provider.{deposit_and_long_buy_success, deposit_and_long_buy_timeout}
use easytrade.Loadgen.Provider.{deposit_and_long_buy_error, long_sell_success, long_sell_timeout}
use easytrade.Loadgen.Provider.{long_sell_error, deposit_and_buy_success, sell_and_withdraw_success}
use easytrade.Loadgen.Provider.{run_visit, get_deposit_value, get_transaction_duration}
use easytrade.Loadgen.Config.{EnvConfig}
use easytrade.Loadgen.Visits.{deposit_and_long_buy, long_sell}
use easytrade.Loadgen.Visits.Draws.{IsStocked}
use easytrade.Loadgen.Visits.Trading.{Completes, visits-Completes}
use easytrade.Loadgen.Main.{ProviderLibrary, LoadgenOptions, main}
use easytrade.Loadgen.Main.Provided.{
  IsProviderLibrary, IsPlanned, is_regular, is_rare, main-get_config, get_provider-Planned,
  get_visits_config-url, get_config-visits_config,
}

module _ {S H B : Type 0} (b : Browser S H B) (works : IsWorking b) (stocked : IsStocked b)
    (pick : ℕ → ℕ) (below : (k : ℕ) → pick (suc k) < suc k) {N : Type 0} (n : Floats N) where
  abbrev Runs : VisitsConfig N → User → Visit N → S → Type 0
  Runs config user v s = Completes b config.easytrade_url user s (run_visit n b pick v)

  buys :
      (config : VisitsConfig N) (user : User) (s : S) (calculator : BuyOptions N → Deal N)
      → Completes b config.easytrade_url user s (
          deposit_and_long_buy b n pick calculator config.easytrade_url user
            (get_deposit_value n config)
            (get_transaction_duration n config))
  buys config user s calculator =
      (visits-Completes b works stocked pick below n config.easytrade_url "" user
        (get_deposit_value n config) config.asset_sell_ratio (get_transaction_duration n config)
        calculator (success_sell_calculator n) s).2

  sells :
      (config : VisitsConfig N) (user : User) (s : S) (calculator : SellOptions N → Deal N)
      → Completes b config.easytrade_url user s (
          long_sell b n pick calculator config.easytrade_url user config.asset_sell_ratio
            (get_transaction_duration n config))
  sells config user s calculator =
      (visits-Completes b works stocked pick below n config.easytrade_url "" user
        (get_deposit_value n config) config.asset_sell_ratio (get_transaction_duration n config)
        (success_buy_calculator n) calculator s).3

  planned-Completes :
      (config : VisitsConfig N) (user : User) (v : Visit N) (s : S)
      → IsPlanned n config user v
      → Runs config user v s
  unfolding run_visit regular_visit rare_visit
  planned-Completes config user v s (is_regular deposit_and_long_buy_success) =
      buys config user s (success_buy_calculator n)
  planned-Completes config user v s (is_regular deposit_and_long_buy_timeout) =
      buys config user s (timeout_buy_calculator n)
  planned-Completes config user v s (is_regular deposit_and_long_buy_error) =
      buys config user s (error_buy_calculator n)
  planned-Completes config user v s (is_regular long_sell_success) =
      sells config user s (success_sell_calculator n)
  planned-Completes config user v s (is_regular long_sell_timeout) =
      sells config user s (timeout_sell_calculator n)
  planned-Completes config user v s (is_regular long_sell_error) =
      sells config user s (error_sell_calculator n)
  planned-Completes config user v s (is_regular deposit_and_buy_success) =
      (visits-Completes b works stocked pick below n config.easytrade_url "" user
        (get_deposit_value n config) config.asset_sell_ratio (get_transaction_duration n config)
        (success_buy_calculator n) (success_sell_calculator n) s).1
  planned-Completes config user v s (is_regular sell_and_withdraw_success) =
      (visits-Completes b works stocked pick below n config.easytrade_url "" user
        config.withdraw_min_value config.asset_sell_ratio (get_transaction_duration n config)
        (success_buy_calculator n) (success_sell_calculator n) s).4
  planned-Completes config user v s (is_rare card_type) =
      (visits-Completes b works stocked pick below n config.easytrade_url card_type user
        config.withdraw_min_value config.asset_sell_ratio (get_transaction_duration n config)
        (success_buy_calculator n) (success_sell_calculator n) s).0

  -- If the load generator starts and its providers work as documented, every visit that it is given
  -- comes to its end over a browser that rejects no call, finds an element for each list and reads
  -- all texts, with draws that are in range: from every state the run returns, and its calls are a
  -- session of one of the users at the address that EASYTRADE_URL has.
  pub main-Completes :
      {E P : Type 0} (env : EnvConfig N E) (users : List User) (lib : ProviderLibrary N P)
      (Provides : P → Visit N → Type 0)
      → IsProviderLibrary Provides lib
      → (options : LoadgenOptions N P) → main n users lib env ≡ ok (some options)
      → (v : Visit N) → Provides options.visit_provider v
      → (s : S)
      → (url : String) × (user : User) × (env.ensure_url "EASYTRADE_URL" ≡ ok url)
        × Mem user users
        × Completes b url user s (run_visit n b pick v)
  main-Completes env users lib Provides documented options started v given s =
      let (config, read, e) = main-get_config n users lib env options started in
      let reached = get_visits_config-url n env _ (get_config-visits_config n env config read) in
      let (user, listed, planned) =
        get_provider-Planned n users lib Provides documented config _ v e given in
      (
        config.visits_config.easytrade_url,
        user,
        reached,
        listed,
        planned-Completes config.visits_config user v s planned,
      )
