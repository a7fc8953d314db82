-- ===== src/Examples/FrontendRuns.antt =====
-- The frontend (src/frontend/src) on concrete replies and states.
use easytrade.Base.{ℕ, ◌≡◌, refl, inr, String, true}
use easytrade.Base.{none, some, string_eq, nat_eq}
use easytrade.Base.Text.{codes, contains, index_of, starts_with}
use easytrade.Base.Result.{Result, ok, err}
use easytrade.Frontend.Money.{Window, buys, DepositRequest}
use easytrade.Frontend.Money.{WithdrawRequest, quick_buy, quick_request}
use easytrade.Frontend.Money.Laws.{IsTracked, handlers-IsTracked}
use easytrade.Frontend.CardOrder.{OrderStatusEntry, not_found, navigate}
use easytrade.Frontend.CardOrder.{outlet, order_path, credit_card_layout, card_shipped}
use easytrade.Frontend.CardOrder.{CreditCardResponse, CardStatusResult}
use easytrade.Frontend.CardOrder.Laws.{credit_card_layout-settles}
use easytrade.Frontend.CardOrder.Laws.{order_status, order_status_lem}

-- An agent that throws at every event.
abbrev broken_agent : {R : Type 0} → Window R String
broken_agent = record { dynatrace = some (λ _. err "no beacon"); dtrum = true }

abbrev accepts : {R : Type 0} → String → R → Result String (Unit {0})
accepts endpoint r = ok tt

abbrev a_deposit : DepositRequest ℕ
a_deposit = record {
  account_id = 1;
  amount = 1000;
  name = "Ann Lee";
  address = "Main Street 1";
  email = "ann@example.com";
  card_number = "4111111111111111";
  card_type = "visaDebit";
  cvv = "123";
}

abbrev a_withdrawal : WithdrawRequest ℕ
a_withdrawal = record {
  account_id = 1;
  amount = 1000;
  name = "Ann Lee";
  address = "Main Street 1";
  email = "ann@example.com";
  card_number = "4111111111111111";
  card_type = "visaDebit";
}

abbrev account : String → ℕ
account _ = 1

handlers-IsTracked_example :
    IsTracked broken_agent buys "/trade/buy"
      (quick_request account "1" "2" 5)
      (ok tt)
      (quick_buy account broken_agent accepts "1" "2" 5)
handlers-IsTracked_example =
    (handlers-IsTracked account (λ _. "1") broken_agent accepts broken_agent accepts broken_agent
      accepts accepts "1" "2" 5 10 1 a_deposit a_withdrawal).0

redirected : credit_card_layout (some not_found) (codes "/credit-card/status") ≡ navigate order_path
unfolding credit_card_layout contains index_of starts_with nat_eq
redirected = refl

credit_card_layout-settles_example : credit_card_layout (some not_found) order_path ≡ outlet
credit_card_layout-settles_example =
    credit_card_layout-settles (some not_found) (codes "/credit-card/status") order_path redirected

abbrev shipped : OrderStatusEntry
shipped = record { status = card_shipped; order_id = "7"; timestamp = "now"; details = "" }

abbrev no_order : CreditCardResponse CardStatusResult
no_order = record { status_code = 404; message = "no order"; results = none }

abbrev parse_no_order : String → Result String (CreditCardResponse CardStatusResult)
parse_no_order text = ok no_order

order_status_example :
    order_status (λ _ _. "rejected") parse_no_order (ok (404, "<xml/>")) ≡ not_found
order_status_example =
    ((order_status_lem (λ _ _. "rejected") parse_no_order 404 "<xml/>").0 no_order (inr refl)
        refl).0
      refl
