-- ===== src/Loadgen/Provider.antt =====
-- Which visits are made: src/loadgen/src/provider (regularVisits.ts, rareVisits.ts and the opening
-- hours of getProvider.ts), for the configuration of src/loadgen/src/config/types.ts. The wrappers
-- that choose among the visits are in Main.
pub mod Laws
use easytrade.Base.{ℕ, ◌*◌, String, Bool, Option, none, some, ◌&&◌, ◌||◌, ◌==◌, nat_eq, ltb, leb}
use easytrade.Base.{if◌then◌else◌}
use easytrade.Loadgen.Browser.{Browser, Script}
use easytrade.Loadgen.Numbers.{Floats}
use easytrade.Loadgen.User.{User, array_random, easytrade_credit_card_types}
use easytrade.Loadgen.Calculators.{BuyOptions, SellOptions, Deal, success_buy_calculator}
use easytrade.Loadgen.Calculators.{timeout_buy_calculator, error_buy_calculator}
use easytrade.Loadgen.Calculators.{success_sell_calculator, timeout_sell_calculator}
use easytrade.Loadgen.Calculators.{error_sell_calculator}
use easytrade.Loadgen.Visits.{order_credit_card, deposit_and_buy, deposit_and_long_buy, long_sell}
use easytrade.Loadgen.Visits.{sell_and_withdraw}

pub data RegularVisits : Type 0 where
  deposit_and_long_buy_success deposit_and_long_buy_timeout : RegularVisits
  deposit_and_long_buy_error long_sell_success long_sell_timeout long_sell_error : RegularVisits
  deposit_and_buy_success sell_and_withdraw_success : RegularVisits

pub data VisitName : Type 0 where
  regular : RegularVisits → VisitName
  order_credit_card_name : VisitName

-- The URL as the text that the visits open.
pub record VisitsConfig (N : Type 0) : Type 0 where
  pub deposit_min_value : N
  pub deposit_max_value : N
  pub asset_sell_ratio : N
  pub withdraw_min_value : N
  pub transaction_min_duration : N
  pub transaction_max_duration : N
  pub easytrade_url : String

-- The five classes of visits, with what their constructors take after the visit's name.
pub data Plan (N : Type 0) : Type 0 where
  deposit_and_buy_plan : String → User → N → Plan N
  deposit_and_long_buy_plan : (BuyOptions N → Deal N) → String → User → N → N → Plan N
  long_sell_plan : (SellOptions N → Deal N) → String → User → N → N → Plan N
  sell_and_withdraw_plan : String → User → N → N → Plan N
  order_credit_card_plan : String → User → String → Plan N

pub record Visit (N : Type 0) : Type 0 where
  pub name : VisitName
  pub plan : Plan N

module _ {N : Type 0} (n : Floats N) where
  unfoldable pub get_deposit_value : VisitsConfig N → N
  get_deposit_value config = n.random_between config.deposit_min_value config.deposit_max_value

  unfoldable pub get_transaction_duration : VisitsConfig N → N
  get_transaction_duration config =
      n.floor (n.random_between config.transaction_min_duration config.transaction_max_duration)

  abbrev long_buy : VisitsConfig N → User → (BuyOptions N → Deal N) → Plan N
  long_buy config user calculator =
      deposit_and_long_buy_plan calculator config.easytrade_url user (get_deposit_value config)
        (get_transaction_duration config)

  abbrev sale : VisitsConfig N → User → (SellOptions N → Deal N) → Plan N
  sale config user calculator =
      long_sell_plan calculator config.easytrade_url user config.asset_sell_ratio
        (get_transaction_duration config)

  -- The visit of `getRegularProviderFunction`, for the random user
  unfoldable pub regular_visit : VisitsConfig N → User → RegularVisits → Visit N
  regular_visit config user deposit_and_long_buy_success = record {
    name = regular deposit_and_long_buy_success;
    plan = long_buy config user (success_buy_calculator n);
  }
  regular_visit config user deposit_and_long_buy_timeout = record {
    name = regular deposit_and_long_buy_timeout;
    plan = long_buy config user (timeout_buy_calculator n);
  }
  regular_visit config user deposit_and_long_buy_error = record {
    name = regular deposit_and_long_buy_error;
    plan = long_buy config user (error_buy_calculator n);
  }
  regular_visit config user long_sell_success = record {
    name = regular long_sell_success;
    plan = sale config user (success_sell_calculator n);
  }
  regular_visit config user long_sell_timeout = record {
    name = regular long_sell_timeout;
    plan = sale config user (timeout_sell_calculator n);
  }
  regular_visit config user long_sell_error = record {
    name = regular long_sell_error;
    plan = sale config user (error_sell_calculator n);
  }
  regular_visit config user deposit_and_buy_success = record {
    name = regular deposit_and_buy_success;
    plan = deposit_and_buy_plan config.easytrade_url user (get_deposit_value config);
  }
  regular_visit config user sell_and_withdraw_success = record {
    name = regular sell_and_withdraw_success;
    plan =
        sell_and_withdraw_plan config.easytrade_url user config.asset_sell_ratio
          config.withdraw_min_value;
  }

  -- The visit of `getRareProviderFunction`, for the random user and card type
  unfoldable pub rare_visit : VisitsConfig N → User → String → Visit N
  rare_visit config user card_type = record {
    name = order_credit_card_name;
    plan = order_credit_card_plan config.easytrade_url user card_type;
  }

  -- `run` of the visit's class
  unfoldable pub run_visit :
      {S H E : Type 0} → Browser S H E → (ℕ → ℕ) → Visit N → Script S H E (Unit {0})
  run_visit b pick visit = elim visit.plan [
    | deposit_and_buy_plan url user v ↦ deposit_and_buy b n pick url user v
    | deposit_and_long_buy_plan calculator url user v d ↦
        deposit_and_long_buy b n pick calculator url user v d
    | long_sell_plan calculator url user r d ↦ long_sell b n pick calculator url user r d
    | sell_and_withdraw_plan url user r least ↦ sell_and_withdraw b n pick url user r least
    | order_credit_card_plan url user card_type ↦ order_credit_card b url user card_type
  ]

unfoldable pub get_card_type : (ℕ → ℕ) → Option String
unfolding array_random
get_card_type pick = array_random pick easytrade_credit_card_types

-- `isNYSEOpenHours`, of the hours and minutes of the time in UTC
unfoldable pub is_nyse_open_hours : ℕ → ℕ → Bool
is_nyse_open_hours hours minutes = (hours == 14 && ltb 30 minutes || leb 15 hours) && ltb hours 21

-- The load factor at a time: the last but one argument of the rate limit of `getProvider`
unfoldable pub load_factor : {N : Type 0} → N → N → ℕ → ℕ → N
unfolding is_nyse_open_hours
load_factor one off_hours hours minutes =
    if is_nyse_open_hours hours minutes then one else off_hours
