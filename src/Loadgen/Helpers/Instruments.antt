-- ===== src/Loadgen/Helpers/Instruments.antt =====
-- src/loadgen/src/helpers/instruments.ts
use easytrade.Base.{ℕ, String, Option, none, some, List}
use easytrade.Loadgen.Browser.{Selector, Browser, Script, pure, throw, ◌>>=◌, ◌>>◌, perform, query}
use easytrade.Loadgen.Browser.{input, click, navigate_handle, standard_delay, get_handle}
use easytrade.Loadgen.Browser.{get_all_handles, get_property, get_inner_text}
use easytrade.Loadgen.Numbers.{Floats}
use easytrade.Loadgen.User.{array_random}
use easytrade.Loadgen.Selectors
use easytrade.Loadgen.Helpers.{goto_page_with_nav_bar}

module _ {S H E : Type 0} (b : Browser S H E) where
  unfoldable pub goto_instruments_page : Script S H E (Unit {0})
  goto_instruments_page = goto_page_with_nav_bar b Selectors.navigation_instruments_page

  unfoldable pub goto_instrument_page : H → Script S H E (Unit {0})
  goto_instrument_page handle = perform b (navigate_handle handle)

  unfoldable pub wait_for_instruments : Script S H E H
  wait_for_instruments =
      query (get_handle Selectors.instruments_page_instrument_card)
        (b.handle Selectors.instruments_page_instrument_card)

  unfoldable pub all_handles : Selector → Script S H E (List H)
  all_handles sel = query (get_all_handles sel) (b.handles sel)

  unfoldable pub get_random_instrument : (ℕ → ℕ) → Script S H E (Option H)
  get_random_instrument pick = do
    _ ← wait_for_instruments
    instrument_cards ← all_handles Selectors.instruments_page_instrument_card
    pure (array_random pick instrument_cards)

  unfoldable pub get_random_owned_instrument : (ℕ → ℕ) → Script S H E (Option H)
  get_random_owned_instrument pick = do
    _ ← wait_for_instruments
    instrument_cards ← all_handles Selectors.instruments_page_owned_instrument
    pure (array_random pick instrument_cards)

  -- The test that both ways to a random instrument end with.
  unfoldable pub open_card : String → Option H → Script S H E (Unit {0})
  open_card message none = throw message
  open_card message (some card) = goto_instrument_page card

  unfoldable pub goto_random_instrument : (ℕ → ℕ) → Script S H E (Unit {0})
  goto_random_instrument pick = do
    goto_instruments_page
    instrument_card ← get_random_instrument pick
    open_card "No instruments available" instrument_card

  unfoldable pub goto_random_owned_instrument : (ℕ → ℕ) → Script S H E (Unit {0})
  goto_random_owned_instrument pick = do
    goto_instruments_page
    instrument_card ← get_random_owned_instrument pick
    open_card "No owned instruments available" instrument_card

  unfoldable pub select_quick_buy : Script S H E (Unit {0})
  select_quick_buy = perform b (click Selectors.instrument_page_quick_buy_form)

  unfoldable pub select_quick_sell : Script S H E (Unit {0})
  select_quick_sell = perform b (click Selectors.instrument_page_quick_sell_form)

  unfoldable pub select_buy : Script S H E (Unit {0})
  select_buy = perform b (click Selectors.instrument_page_buy_form)

  unfoldable pub select_sell : Script S H E (Unit {0})
  select_sell = perform b (click Selectors.instrument_page_sell_form)

  unfoldable pub get_instrument_name : Script S H E String
  get_instrument_name =
      query (get_inner_text Selectors.instrument_page_instrument_name)
        (b.inner_text Selectors.instrument_page_instrument_name)

  -- The `value` property of an input.
  unfoldable pub value_of : Selector → Script S H E String
  value_of sel = query (get_property sel "value") (b.property sel "value")

  module _ {N : Type 0} (n : Floats N) where
    unfoldable pub get_instrument_price : Script S H E N
    get_instrument_price = do
      price ← value_of Selectors.instrument_page_price_input
      pure (n.parse_float price)

    unfoldable pub get_current_balance : Script S H E N
    get_current_balance = do
      balance ← value_of Selectors.common_current_balance
      pure (n.parse_float balance)

    unfoldable pub get_instrument_possessed_amount : Script S H E N
    get_instrument_possessed_amount = do
      amount ← value_of Selectors.instrument_page_possessed_amount
      pure (n.parse_int amount)

    -- price, duration and amount
    unfoldable pub schedule_transaction : N → N → N → Script S H E (Unit {0})
    schedule_transaction price duration amount = do
      perform b (input Selectors.instrument_page_amount_input (n.show amount))
      perform b standard_delay
      perform b (input Selectors.instrument_page_price_input (n.show price))
      perform b standard_delay
      perform b (input Selectors.instrument_page_time_input (n.show duration))
      perform b standard_delay
      perform b (click Selectors.instrument_page_submit_button)

    unfoldable pub trade : N → Script S H E (Unit {0})
    trade amount = do
      perform b (input Selectors.instrument_page_amount_input (n.show amount))
      perform b standard_delay
      perform b (click Selectors.instrument_page_submit_button)
