-- ===== src/Loadgen/Visits.antt =====
-- The visits: src/loadgen/src/visits. A visit's `run` is the login, the steps that are the visit's
-- own, the logout and the end of the session; these steps are a function of their own here. The
-- texts that are only logged (`getPurchaseDetails`, `getSellDetails`) are left out, their calls of
-- the browser are not.

pub mod Session
pub mod Orders
pub mod Total
pub mod Draws
pub mod Trading
use easytrade.Base.{ℕ, String, Bool, true, false, if◌then◌else◌}
use easytrade.Loadgen.Browser.{Browser, Script, pure, ◌>>=◌, ◌>>◌, perform, goto_page}
use easytrade.Loadgen.Browser.{end_dt_session}
use easytrade.Loadgen.Numbers.{Floats}
use easytrade.Loadgen.User.{User}
use easytrade.Loadgen.Helpers.{page_setup, login, logout, goto_deposit_page, deposit}
use easytrade.Loadgen.Helpers.{goto_withdraw_page, withdraw, goto_credit_card_page, order_card}
use easytrade.Loadgen.Helpers.{revoke_card, check_if_card_active, check_if_order_pending}
use easytrade.Loadgen.Helpers.Instruments.{goto_random_instrument, goto_random_owned_instrument}
use easytrade.Loadgen.Helpers.Instruments.{select_quick_buy, select_quick_sell, select_buy}
use easytrade.Loadgen.Helpers.Instruments.{select_sell, get_instrument_name, get_instrument_price}
use easytrade.Loadgen.Helpers.Instruments.{get_current_balance, get_instrument_possessed_amount}
use easytrade.Loadgen.Helpers.Instruments.{schedule_transaction, trade}
use easytrade.Loadgen.Calculators.{BuyOptions, SellOptions, Deal, random_amount}

module _ {S H E : Type 0} (b : Browser S H E) where
  -- The frame of every `run`, around the visit's own steps.
  unfoldable pub run_session : String → User → Script S H E (Unit {0}) → Script S H E (Unit {0})
  run_session url user steps = do
    perform b (goto_page url)
    login b user
    steps
    logout b
    perform b end_dt_session

  -- `OrderCreditCardVisit.orderCard`, after the test for a pending order
  unfoldable pub order_new_card : User → String → Script S H E (Unit {0})
  order_new_card user card_type = do
    card_active ← check_if_card_active b
    if card_active
        then revoke_card b >> order_card b user card_type
        else order_card b user card_type

  unfoldable pub order_credit_card_steps : User → String → Script S H E (Unit {0})
  order_credit_card_steps user card_type = do
    goto_credit_card_page b
    order_pending ← check_if_order_pending b
    if order_pending then pure tt else order_new_card user card_type

  unfoldable pub order_credit_card : String → User → String → Script S H E (Unit {0})
  order_credit_card url user card_type =
      run_session url user (order_credit_card_steps user card_type)

  module _ {N : Type 0} (n : Floats N) (pick : ℕ → ℕ) where
    unfoldable pub deposit_and_buy_steps : User → N → Script S H E (Unit {0})
    deposit_and_buy_steps user deposit_value = do
      goto_deposit_page b
      deposit b n user deposit_value
      goto_random_instrument b pick
      select_quick_buy b
      instrument_price ← get_instrument_price b n
      _ ← get_current_balance b n
      _ ← get_instrument_name b
      trade b n (random_amount n (n.div deposit_value instrument_price))
      goto_credit_card_page b

    unfoldable pub deposit_and_buy : String → User → N → Script S H E (Unit {0})
    deposit_and_buy url user deposit_value =
        run_session url user (deposit_and_buy_steps user deposit_value)

    unfoldable pub deposit_and_long_buy_steps :
        (BuyOptions N → Deal N) → User → N → N → Script S H E (Unit {0})
    deposit_and_long_buy_steps calculator user deposit_value duration = do
      goto_deposit_page b
      deposit b n user deposit_value
      goto_random_instrument b pick
      current_balance ← get_current_balance b n
      select_buy b
      instrument_price ← get_instrument_price b n
      _ ← get_instrument_name b
      let deal = calculator (record {
        balance = current_balance;
        ask_price = instrument_price;
        max_cost = deposit_value;
      })
      schedule_transaction b n deal.price duration deal.amount
      goto_credit_card_page b

    unfoldable pub deposit_and_long_buy :
        (BuyOptions N → Deal N) → String → User → N → N → Script S H E (Unit {0})
    deposit_and_long_buy calculator url user deposit_value duration =
        run_session url user (deposit_and_long_buy_steps calculator user deposit_value duration)

    unfoldable pub long_sell_steps : (SellOptions N → Deal N) → N → N → Script S H E (Unit {0})
    long_sell_steps calculator sell_ratio duration = do
      goto_random_owned_instrument b pick
      select_quick_sell b
      instrument_amount ← get_instrument_possessed_amount b n
      select_sell b
      instrument_price ← get_instrument_price b n
      _ ← get_instrument_name b
      let deal = calculator (record {
        ask_price = instrument_price;
        owned_amount = instrument_amount;
        ratio = sell_ratio;
      })
      schedule_transaction b n deal.price duration deal.amount
      goto_credit_card_page b

    unfoldable pub long_sell :
        (SellOptions N → Deal N) → String → User → N → N → Script S H E (Unit {0})
    long_sell calculator url user sell_ratio duration =
        run_session url user (long_sell_steps calculator sell_ratio duration)

    unfoldable pub sell_and_withdraw_steps : User → N → N → Script S H E (Unit {0})
    sell_and_withdraw_steps user sell_ratio withdraw_min_value = do
      goto_random_owned_instrument b pick
      select_quick_sell b
      instrument_amount ← get_instrument_possessed_amount b n
      instrument_price ← get_instrument_price b n
      _ ← get_instrument_name b
      let sell_amount = random_amount n (n.mul instrument_amount sell_ratio)
      trade b n sell_amount
      goto_withdraw_page b
      withdraw b n user (n.max withdraw_min_value (n.mul instrument_price sell_amount))
      goto_credit_card_page b

    unfoldable pub sell_and_withdraw : String → User → N → N → Script S H E (Unit {0})
    sell_and_withdraw url user sell_ratio withdraw_min_value =
        run_session url user (sell_and_withdraw_steps user sell_ratio withdraw_min_value)
