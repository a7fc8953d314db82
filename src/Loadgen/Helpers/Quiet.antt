-- ===== src/Loadgen/Helpers/Quiet.antt =====
-- The calls that begin or end a session (the page's address, the login and logout buttons, the end
-- of the tracked session), and the steps of src/loadgen/src/helpers that make none of them.
use easytrade.Base.{ℕ, ◌≡◌, refl, String, Bool, true, false, not, ◌&&◌}
use easytrade.Base.{◌==◌, string_eq, Option, none, some}
use easytrade.Loadgen.Browser.{Browser, Call, Selector}
use easytrade.Loadgen.Browser.{goto_page, navigate}
use easytrade.Loadgen.Browser.{end_dt_session}
use easytrade.Loadgen.Browser.Within.{Within, Passes, within_rules}
use easytrade.Loadgen.Numbers.{Floats}
use easytrade.Loadgen.User.{User}
use easytrade.Loadgen.Helpers.{goto_page_with_nav_bar, deposit, withdraw, order_card}
use easytrade.Loadgen.Helpers.{show_navbar, toggle_if, is_present, fill_user_deposit_data}
use easytrade.Loadgen.Helpers.{fill_user_withdraw_data, fill_card_data, select_card_provider}
use easytrade.Loadgen.Helpers.{goto_deposit_page, goto_withdraw_page, goto_credit_card_page}
use easytrade.Loadgen.Helpers.Instruments.{goto_instruments_page, goto_instrument_page, open_card}
use easytrade.Loadgen.Helpers.Instruments.{get_random_instrument, get_random_owned_instrument}
use easytrade.Loadgen.Helpers.Instruments.{wait_for_instruments, all_handles, value_of}
use easytrade.Loadgen.Helpers.Instruments.{goto_random_instrument, goto_random_owned_instrument}
use easytrade.Loadgen.Helpers.Instruments.{select_quick_buy, select_quick_sell, select_buy}
use easytrade.Loadgen.Helpers.Instruments.{select_sell, get_instrument_name, get_instrument_price}
use easytrade.Loadgen.Helpers.Instruments.{get_current_balance, get_instrument_possessed_amount}
use easytrade.Loadgen.Helpers.Instruments.{schedule_transaction, trade}

-- `false` for the calls that begin and end a session.
unfoldable pub is_quiet : {H : Type 0} → Call H → Bool
is_quiet (goto_page url) = false
is_quiet (navigate sel) = not (sel.name == "login-button") && not (sel.name == "logout-button")
is_quiet end_dt_session = false
is_quiet _ = true

module _ {S H E : Type 0} (b : Browser S H E) where
  pub nav-quiet :
      (sel : Selector)
      → is_quiet {H = H} (navigate sel) ≡ true
      → Within is_quiet (goto_page_with_nav_bar b sel)
  unfolding goto_page_with_nav_bar show_navbar toggle_if is_present is_quiet
  nav-quiet sel quiet = search within_rules depth 12

  pub fill_card-quiet : (user : User) → Within is_quiet (fill_card_data b user)
  unfolding fill_card_data select_card_provider is_quiet
  fill_card-quiet user = search within_rules depth 30

  fill_user-quiet :
      (user : User)
      → Within is_quiet (fill_user_deposit_data b user)
        × Within is_quiet (fill_user_withdraw_data b user)
  unfolding fill_user_deposit_data fill_user_withdraw_data is_quiet
  fill_user-quiet user =
      let card = fill_card-quiet user in
      (search within_rules depth 20, search within_rules depth 20)

  pub deposit-quiet :
      {N : Type 0} (n : Floats N) (user : User) (v : N) → Within is_quiet (deposit b n user v)
  unfolding deposit is_quiet
  deposit-quiet n user v = let fields = (fill_user-quiet user).0 in search within_rules depth 20

  pub withdraw-quiet :
      {N : Type 0} (n : Floats N) (user : User) (v : N) → Within is_quiet (withdraw b n user v)
  unfolding withdraw is_quiet
  withdraw-quiet n user v = let fields = (fill_user-quiet user).1 in search within_rules depth 20

  pub goto_page-quiet :
      Within is_quiet (goto_deposit_page b)
      × Within is_quiet (goto_withdraw_page b)
      × Within is_quiet (goto_credit_card_page b)
      × Within is_quiet (goto_instruments_page b)
  unfolding goto_deposit_page goto_withdraw_page goto_credit_card_page goto_instruments_page
      is_quiet string_eq
  goto_page-quiet = (nav-quiet _ refl, nav-quiet _ refl, nav-quiet _ refl, nav-quiet _ refl)

  pub order_card-quiet : (user : User) (type : String) → Within is_quiet (order_card b user type)
  unfolding order_card is_quiet
  order_card-quiet user type = search within_rules depth 40

  open_card-quiet :
      (message : String) (card : Option H) → Within is_quiet (open_card b message card)
  unfolding open_card goto_instrument_page is_quiet
  open_card-quiet message none = search within_rules
  open_card-quiet message (some card) = search within_rules

  pub goto_random-quiet :
      (pick : ℕ → ℕ)
      → Within is_quiet (goto_random_instrument b pick)
        × Within is_quiet (goto_random_owned_instrument b pick)
  unfolding goto_random_instrument goto_random_owned_instrument get_random_instrument
      get_random_owned_instrument wait_for_instruments all_handles is_quiet
  goto_random-quiet pick =
      let page = goto_page-quiet.3 in
      (
        search (within_rules, open_card-quiet) depth 20,
        search (within_rules, open_card-quiet) depth 20,
      )

  -- The reads and the tabs of an instrument's page.
  pub tabs-quiet :
      Within is_quiet (select_quick_buy b)
      × Within is_quiet (select_quick_sell b)
      × Within is_quiet (select_buy b)
      × Within is_quiet (select_sell b)
      × Within is_quiet (get_instrument_name b)
  unfolding select_quick_buy select_quick_sell select_buy select_sell get_instrument_name is_quiet
  tabs-quiet = search within_rules

  module _ {N : Type 0} (n : Floats N) where
    pub reads-quiet :
        Within is_quiet (get_instrument_price b n)
        × Within is_quiet (get_current_balance b n)
        × Within is_quiet (get_instrument_possessed_amount b n)
    unfolding get_instrument_price get_current_balance get_instrument_possessed_amount value_of
        is_quiet
    reads-quiet = search within_rules

    pub schedule_transaction-quiet : (x y z : N) → Within is_quiet (schedule_transaction b n x y z)
    unfolding schedule_transaction is_quiet
    schedule_transaction-quiet x y z = search within_rules depth 20

    pub trade-quiet : (x : N) → Within is_quiet (trade b n x)
    unfolding trade is_quiet
    trade-quiet x = search within_rules depth 20

pub ruleset quiet_rules = (
  within_rules, deposit-quiet, withdraw-quiet, order_card-quiet, schedule_transaction-quiet,
  trade-quiet,
)
