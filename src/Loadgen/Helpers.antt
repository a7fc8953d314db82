-- ===== src/Loadgen/Helpers.antt =====
-- The steps that visits are made of: src/loadgen/src/helpers (common.ts, login.ts, logout.ts,
-- deposit.ts, withdraw.ts, creditCard.ts).
pub mod Instruments
pub mod Quiet
use easytrade.Base.{String, ◌<>◌, Bool, not, if◌then◌else◌}
use easytrade.Loadgen.Browser.{Selector, Browser, Script, pure, ◌>>=◌, ◌>>◌, perform, query}
use easytrade.Loadgen.Browser.{Call, setup_page, input, click, navigate, click_handle, short_delay}
use easytrade.Loadgen.Browser.{standard_delay, is_selector_present, get_handle}
use easytrade.Loadgen.Numbers.{Floats}
use easytrade.Loadgen.User.{User, credit_card_mapping}
use easytrade.Loadgen.Selectors

module _ {S H E : Type 0} (b : Browser S H E) where
  unfoldable pub is_present : Selector → Script S H E Bool
  is_present sel = query (is_selector_present sel) (b.present sel)

  unfoldable pub select_card_provider : Selector → String → Script S H E (Unit {0})
  select_card_provider card_provider_selector card_provider = do
    perform b (click card_provider_selector)
    let option = Selectors.deposit_page_card_type_provider card_provider
    provider_handle ← query (get_handle option) (b.handle option)
    perform b short_delay
    perform b (click_handle provider_handle)

  -- The rest of `showNavbar` and `hideNavbar`: click the toggler, if it is wanted.
  unfoldable pub toggle_if : Bool → Script S H E (Unit {0})
  toggle_if wanted =
      if wanted
      then perform b (click Selectors.navigation_sidebar_toggler) >> perform b short_delay
      else pure tt

  unfoldable pub show_navbar : Script S H E (Unit {0})
  show_navbar = do
    perform b standard_delay
    nav_bar_open ← is_present Selectors.navigation_home_page
    toggle_if (not nav_bar_open)

  unfoldable pub hide_navbar : Script S H E (Unit {0})
  hide_navbar = do
    perform b standard_delay
    nav_bar_open ← is_present Selectors.navigation_home_page
    toggle_if nav_bar_open

  unfoldable pub goto_page_with_nav_bar : Selector → Script S H E (Unit {0})
  goto_page_with_nav_bar nav_bar_selector = do
    show_navbar
    perform b (navigate nav_bar_selector)
    perform b standard_delay

  -- `setupPage` with `pageSetup`: user agent, forwarded address, visitor cookie and its domain
  unfoldable pub page_setup : User → String → Script S H E (Unit {0})
  page_setup user hostname =
      perform b (setup_page user.user_agent user.ip4 user.visitor_id hostname)

  unfoldable pub login : User → Script S H E (Unit {0})
  login user = do
    perform b (input Selectors.login_page_username user.username)
    perform b short_delay
    perform b (input Selectors.login_page_password user.password)
    perform b short_delay
    perform b (navigate Selectors.login_page_login_button)

  unfoldable pub logout : Script S H E (Unit {0})
  logout = do
    perform b (click Selectors.navigation_dropdown_toggler)
    perform b short_delay
    perform b (navigate Selectors.navigation_logout)

  unfoldable pub goto_deposit_page : Script S H E (Unit {0})
  goto_deposit_page = goto_page_with_nav_bar Selectors.navigation_deposit_page

  -- The fields that `fillUserDepositData` and `fillUserWithdrawData` share, up to the card type.
  unfoldable pub fill_card_data : User → Script S H E (Unit {0})
  fill_card_data user = do
    perform b
        (input Selectors.deposit_page_cardholder_name (user.first_name <> " " <> user.last_name))
    perform b standard_delay
    perform b (input Selectors.deposit_page_address user.address)
    perform b standard_delay
    perform b (input Selectors.deposit_page_email user.email)
    perform b standard_delay
    perform b (input Selectors.deposit_page_card_number user.credit_card_number)
    perform b standard_delay
    select_card_provider Selectors.deposit_page_card_type
        (credit_card_mapping user.credit_card_provider)

  unfoldable pub fill_user_deposit_data : User → Script S H E (Unit {0})
  fill_user_deposit_data user = do
    fill_card_data user
    perform b short_delay
    perform b (input Selectors.deposit_page_card_cvv user.credit_card_cvv)
    perform b standard_delay

  unfoldable pub fill_user_withdraw_data : User → Script S H E (Unit {0})
  fill_user_withdraw_data user = do fill_card_data user; perform b standard_delay

  module _ {N : Type 0} (n : Floats N) where
    unfoldable pub deposit : User → N → Script S H E (Unit {0})
    deposit user value = do
      perform b (input Selectors.deposit_page_amount (n.show value))
      perform b standard_delay
      fill_user_deposit_data user
      perform b (click Selectors.deposit_page_accept_terms)
      perform b short_delay
      perform b (click Selectors.deposit_page_submit)

    unfoldable pub withdraw : User → N → Script S H E (Unit {0})
    withdraw user value = do
      perform b (input Selectors.deposit_page_amount (n.show value))
      perform b standard_delay
      fill_user_withdraw_data user
      perform b (click Selectors.deposit_page_accept_terms)
      perform b short_delay
      perform b (click Selectors.deposit_page_submit)

  unfoldable pub goto_withdraw_page : Script S H E (Unit {0})
  goto_withdraw_page = goto_page_with_nav_bar Selectors.navigation_withdraw_page

  unfoldable pub goto_credit_card_page : Script S H E (Unit {0})
  goto_credit_card_page = goto_page_with_nav_bar Selectors.navigation_credit_card_page

  unfoldable pub order_card : User → String → Script S H E (Unit {0})
  order_card user card_type = do
    perform b
        (input Selectors.credit_card_page_name_input (user.first_name <> " " <> user.last_name))
    perform b standard_delay
    perform b (input Selectors.credit_card_page_address_input user.address)
    perform b standard_delay
    perform b (input Selectors.credit_card_page_email_input user.email)
    perform b standard_delay
    perform b (click Selectors.credit_card_page_card_type_input)
    let option = Selectors.credit_card_page_card_type_type card_type
    type_handle ← query (get_handle option) (b.handle option)
    perform b short_delay
    perform b (click_handle type_handle)
    perform b standard_delay
    perform b (click Selectors.credit_card_page_accept_terms)
    perform b standard_delay
    perform b (click Selectors.credit_card_page_order_card_button)

  unfoldable pub revoke_card : Script S H E (Unit {0})
  revoke_card = perform b (navigate Selectors.credit_card_page_revoke_card)

  unfoldable pub check_if_card_active : Script S H E Bool
  check_if_card_active = is_present Selectors.credit_card_page_revoke_card

  unfoldable pub check_if_order_pending : Script S H E Bool
  check_if_order_pending = is_present Selectors.credit_card_page_order_id_display
