-- ===== src/Loadgen/Selectors.antt =====
-- The selectors of src/loadgen/src/selectors.ts, under their names there.
use easytrade.Base.{String, ◌<>◌}
use easytrade.Loadgen.Browser.{Selector}

abbrev pub common_current_balance : Selector
common_current_balance = record {
  name = "current-balance";
  xpath = "//input[@id=\"currentBalance\"]";
}

abbrev pub login_page_username : Selector
login_page_username = record { name = "username-input"; xpath = "//input[@id=\"login\"]" }

abbrev pub login_page_password : Selector
login_page_password = record { name = "password-input"; xpath = "//input[@id=\"password\"]" }

abbrev pub login_page_login_button : Selector
login_page_login_button = record { name = "login-button"; xpath = "//button[@id=\"submitButton\"]" }

abbrev pub navigation_sidebar_toggler : Selector
navigation_sidebar_toggler = record {
  name = "sidebar-toggler";
  xpath = "//button[@id=\"navigationToggler\"]";
}

abbrev pub navigation_deposit_page : Selector
navigation_deposit_page = record {
  name = "deposit-page-nav";
  xpath = "//a[contains(@href, \"deposit\")]";
}

abbrev pub navigation_home_page : Selector
navigation_home_page = record { name = "home-page-nav"; xpath = "//a[contains(@href, \"home\")]" }

abbrev pub navigation_withdraw_page : Selector
navigation_withdraw_page = record {
  name = "withdraw-page-nav";
  xpath = "//a[contains(@href, \"withdraw\")]";
}

abbrev pub navigation_instruments_page : Selector
navigation_instruments_page = record {
  name = "instruments-page-nav";
  xpath = "//a[contains(@href, \"instruments\")]";
}

abbrev pub navigation_dropdown_toggler : Selector
navigation_dropdown_toggler = record {
  name = "dropdown-toggler";
  xpath = "//button[@id=\"profileToggler\"]";
}

abbrev pub navigation_credit_card_page : Selector
navigation_credit_card_page = record {
  name = "credit-card-page-nav";
  xpath = "//a[contains(@href, \"credit-card\")]";
}

abbrev pub navigation_logout : Selector
navigation_logout = record { name = "logout-button"; xpath = "//li[@id=\"logoutItem\"]" }

abbrev pub deposit_page_submit : Selector
deposit_page_submit = record { name = "deposit-button"; xpath = "//form//button[@type=\"submit\"]" }

abbrev pub deposit_page_cardholder_name : Selector
deposit_page_cardholder_name = record {
  name = "name-input";
  xpath = "//input[@id=\"cardholderName\"]";
}

abbrev pub deposit_page_card_type : Selector
deposit_page_card_type = record { name = "credit-card-select"; xpath = "//div[@id=\"cardType\"]" }

abbrev pub deposit_page_card_type_provider : String → Selector
deposit_page_card_type_provider provider = record {
  name = "credit-card-provider";
  xpath = "//*[@id=\"menu-cardType\"]//li[contains(text(), \"" <> provider <> "\")]";
}

abbrev pub deposit_page_address : Selector
deposit_page_address = record { name = "address-input"; xpath = "//input[@id=\"address\"]" }

abbrev pub deposit_page_email : Selector
deposit_page_email = record { name = "email-input"; xpath = "//input[@id=\"email\"]" }

abbrev pub deposit_page_card_number : Selector
deposit_page_card_number = record {
  name = "card-number-input";
  xpath = "//input[@id=\"cardNumber\"]";
}

abbrev pub deposit_page_card_cvv : Selector
deposit_page_card_cvv = record { name = "card-cvv-input"; xpath = "//input[@id=\"cvv\"]" }

abbrev pub deposit_page_amount : Selector
deposit_page_amount = record { name = "deposit-amount-input"; xpath = "//input[@id=\"amount\"]" }

abbrev pub deposit_page_accept_terms : Selector
deposit_page_accept_terms = record {
  name = "accept-terms-check";
  xpath = "//input[@id=\"agreement\"]";
}

abbrev pub instruments_page_instrument_card : Selector
instruments_page_instrument_card = record {
  name = "instrument-card";
  xpath = "//div[contains(@class, \"instrument-card\")]/a[contains(@href, \"instruments\")]";
}

abbrev pub instruments_page_owned_instrument : Selector
instruments_page_owned_instrument = record {
  name = "owned-instrument-card";
  xpath = "//div[contains(@class, \"owned-instrument\")]/a[contains(@href, \"instruments\")]";
}

abbrev pub instrument_page_quick_buy_form : Selector
instrument_page_quick_buy_form = record {
  name = "quick-buy-nav";
  xpath = "//button[text()=\"Quick Buy\"]";
}

abbrev pub instrument_page_quick_sell_form : Selector
instrument_page_quick_sell_form = record {
  name = "quick-sell-nav";
  xpath = "//button[text()=\"Quick Sell\"]";
}

abbrev pub instrument_page_buy_form : Selector
instrument_page_buy_form = record { name = "long-buy-nav"; xpath = "//button[text()=\"Buy\"]" }

abbrev pub instrument_page_sell_form : Selector
instrument_page_sell_form = record { name = "long-sell-nav"; xpath = "//button[text()=\"Sell\"]" }

abbrev pub instrument_page_instrument_price : Selector
instrument_page_instrument_price = record {
  name = "instrument-price-view";
  xpath = "//h5[@id=\"instrumentPrice\"]";
}

abbrev pub instrument_page_instrument_name : Selector
instrument_page_instrument_name = record {
  name = "instrument-name-view";
  xpath = "//*[@id=\"instrumentName\"]";
}

abbrev pub instrument_page_amount_input : Selector
instrument_page_amount_input = record { name = "amount-input"; xpath = "//input[@id=\"amount\"]" }

abbrev pub instrument_page_possessed_amount : Selector
instrument_page_possessed_amount = record {
  name = "owned-amount-view";
  xpath = "//input[@id=\"posessedAmount\"]";
}

abbrev pub instrument_page_price_input : Selector
instrument_page_price_input = record { name = "price-input"; xpath = "//input[@id=\"price\"]" }

abbrev pub instrument_page_time_input : Selector
instrument_page_time_input = record { name = "duration-input"; xpath = "//input[@id=\"time\"]" }

abbrev pub instrument_page_submit_button : Selector
instrument_page_submit_button = record {
  name = "submit-transaction-button";
  xpath = "//button[@id=\"submitButton\"]";
}

abbrev pub credit_card_page_name_input : Selector
credit_card_page_name_input = record { name = "name-input"; xpath = "//input[@id=\"name\"]" }

abbrev pub credit_card_page_address_input : Selector
credit_card_page_address_input = record {
  name = "address-input";
  xpath = "//input[@id=\"address\"]";
}

abbrev pub credit_card_page_email_input : Selector
credit_card_page_email_input = record { name = "email"; xpath = "//input[@id=\"email\"]" }

abbrev pub credit_card_page_card_type_input : Selector
credit_card_page_card_type_input = record {
  name = "card-type-select";
  xpath = "//div[@id=\"type\"]";
}

abbrev pub credit_card_page_card_type_type : String → Selector
credit_card_page_card_type_type card_type = record {
  name = "credit-card-provider";
  xpath = "//*[@id=\"menu-type\"]//li[contains(text(), \"" <> card_type <> "\")]";
}

abbrev pub credit_card_page_order_card_button : Selector
credit_card_page_order_card_button = record {
  name = "order-card-button";
  xpath = "//button[@id=\"submitButton\"]";
}

abbrev pub credit_card_page_accept_terms : Selector
credit_card_page_accept_terms = record {
  name = "accept-terms-check";
  xpath = "//input[@id=\"agreement\"]";
}

abbrev pub credit_card_page_revoke_card : Selector
credit_card_page_revoke_card = record {
  name = "revoke-card-button";
  xpath = "//button[@id=\"revoke-card\"]";
}

abbrev pub credit_card_page_order_id_display : Selector
credit_card_page_order_id_display = record {
  name = "order-id-view";
  xpath = "//p[@id=\"order-id\"]";
}
