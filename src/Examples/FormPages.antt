-- ===== src/Examples/FormPages.antt =====
-- The forms of an instrument's page, of the account and of the load generator's scripts
-- (src/frontend/src/components, src/loadgen/src/helpers) on concrete values.
use easytrade.Base.{ℕ, ◌*◌, ◌≡◌, refl, ◌≢◌, String, true, Option, none}
use easytrade.Base.{some, List, [], ◌∷◌, string_eq, nat_eq, arith, ltb, leb}
use easytrade.Base.Result.{Result, ok}
use easytrade.Frontend.Money.{post, quick_request, QuickTransactionRequest, quick_buy, tracked}
use easytrade.Frontend.Money.{send_biz_event, Handled, LongTransactionRequest}
use easytrade.Frontend.Queries.{balance_key, instruments_key}
use easytrade.Frontend.Auth.{LoginResponse, Event, session, is_logged_in, logged_in}
use easytrade.Frontend.CardOrder.{CreditCardResponse, Thrown}
use easytrade.Frontend.Forms.Trade.{QuickBuyData, QuickSellData, TradedInstrument}
use easytrade.Frontend.Forms.Trade.{quick_buy_total, quick_buy_values}
use easytrade.Frontend.Forms.Trade.{quick_sell_values, quick_buy_schema}
use easytrade.Frontend.Forms.Trade.{long_values}
use easytrade.Frontend.Forms.Trade.Submit.{quick_buy_form, InstrumentContext}
use easytrade.Frontend.Forms.Trade.Submit.{instrument_provider}
use easytrade.Frontend.Forms.Trade.Laws.{IsAffordable}
use easytrade.Frontend.Forms.Trade.Sends.{page_context, trade_forms-IsSettled}
use easytrade.Frontend.Forms.Trade.Sends.{quick_buy_form-within}
use easytrade.Frontend.Forms.Account.{SignupRequest, LoginData, PresetUser}
use easytrade.Frontend.Forms.Account.{signup_defaults, credit_card_defaults}
use easytrade.Frontend.Forms.Account.{default_login_defaults, login_schema}
use easytrade.Frontend.Forms.Account.Submit.{login_form, default_login_form}
use easytrade.Frontend.Forms.Account.Submit.{CreditCardOrderRequest}
use easytrade.Frontend.Forms.Account.Sends.{account_forms-IsSettled, login_page-session}
use easytrade.Examples.FormRuns.{
  library, naturals, validators, client, no_agent, posted, at, differs,
}

sends : {P : Type 0} (p : P) (ps : List P) → p ∷ ps ≢ []
sends p ps same = ground arith

abbrev instrument : TradedInstrument ℕ
instrument = record { id = "2"; close = 10; amount = 4 }

abbrev account : String → ℕ
account _ = 1

abbrev context :
    InstrumentContext ℕ
      (Handled (QuickTransactionRequest ℕ) String)
      (Handled (LongTransactionRequest ℕ) String)
context = page_context account no_agent posted posted instrument "1"

-- Three shares at 10, for a balance of 100.
abbrev purchase : QuickBuyData ℕ
purchase = record { amount = 3; price = 10; current_balance = 100; total = 30 }

purchase-IsAffordable : IsAffordable naturals purchase
purchase-IsAffordable = record {
  amount_positive = refl;
  price_positive = refl;
  numeric = (refl, refl, refl, refl);
  affordable = refl;
}

trade_forms-IsSettled_example :
    library.submit (quick_buy_form naturals client context library (some 100)) (at purchase)
    ≡ record {
      values = quick_buy_values naturals instrument (some 100);
      status = record { success_msg = "Transaction successful"; error_msg = "" };
      cache = instruments_key ∷ balance_key ∷ [];
      sent = post "/trade/buy" (quick_request account "1" "2" 3) ∷ [];
    }
unfolding instrument_provider quick_buy tracked send_biz_event
trade_forms-IsSettled_example =
    (trade_forms-IsSettled naturals client account no_agent posted posted instrument "1" (some 100)
        0 library library library (at purchase) (at (quick_sell_values naturals instrument))
        (at (long_values naturals 0 instrument))).0.succeeded
      tt purchase-IsAffordable refl

quick_buy_form-within_example : (ltb 0 3 ≡ true) × (30 ≡ 3 * 10) × (leb 30 100 ≡ true)
unfolding instrument_provider quick_buy_total quick_buy_values quick_buy_form quick_buy_schema
    quick_buy tracked send_biz_event
quick_buy_form-within_example =
    quick_buy_form-within naturals client context library 100 3 (at purchase) refl refl (sends _ _)

abbrev a_sale : QuickSellData ℕ
a_sale = record { amount = 3; price = 10; possessed_amount = 4; total = 30 }

abbrev signs_up : SignupRequest → Option String × List (Unit {0})
signs_up request = (none, [])

abbrev signs_in : String → String → LoginResponse
signs_in name password = record { id = some "6"; error = none }

abbrev orders : CreditCardOrderRequest ℕ → Result (Thrown String) (CreditCardResponse String)
orders request = ok (record { status_code = 201; message = ""; results = some "7" })

abbrev james : LoginData
james = record { login = "james_norton"; password = "pass_james_123" }

account_forms-IsSettled_example :
    library.submit (login_form signs_in) (at james) ≡ record (at {P = Event} james) {
      sent = logged_in (record { id = some "6"; error = none }) ∷ [];
    }
unfolding string_eq
account_forms-IsSettled_example =
    (account_forms-IsSettled client validators 1 library library library signs_up signs_in orders
        (at signup_defaults) (at james) (at credit_card_defaults)).1.succeeded
      tt (differs "james_norton" refl, differs "pass_james_123" refl) refl

abbrev presets : List PresetUser
presets = record { id = "6"; first_name = "James"; last_name = "Norton" } ∷ []

login_page-session_example :
    (is_logged_in (session none (library.submit (login_form signs_in) (at james)).sent) ≡ true)
    × (session none
          (library.submit (default_login_form presets) (at (default_login_defaults presets))).sent
        ≡ some "6")
unfolding default_login_defaults is_logged_in login_schema string_eq
login_page-session_example =
    login_page-session library library signs_in presets none (at james)
      (at (default_login_defaults presets)) refl refl
