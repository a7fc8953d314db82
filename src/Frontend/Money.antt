-- ===== src/Frontend/Money.antt =====
-- The handlers that move money or shares: src/frontend/src/api/transaction/trades.ts,
-- api/creditCard/deposit/deposit.ts and api/creditCard/withdraw/withdraw.ts, with the business
-- events of api/bizEvents.ts and the endpoints of api/backend. The HTTP client and the injected
-- agents (`window.dynatrace`, `window.dtrum`) are parameters; logging is left out.
pub mod Laws
use easytrade.Base.{String, ◌<>◌, Bool, true, false, Option, none, some, List, [], ◌∷◌, ◌++◌}
use easytrade.Base.{if◌then◌else◌}
use easytrade.Base.Result.{Result, ok, err}

-- The operations with business events.
pub data Operation : Type 0 where
  deposits withdraws sells buys : Operation

pub data Phase : Type 0 where
  start finish error : Phase

-- The types of the twelve events.
abbrev pub event_type : Operation → Phase → String
event_type deposits start = "com.easytrade.deposit.start"
event_type deposits finish = "com.easytrade.deposit.finish"
event_type deposits error = "com.easytrade.deposit.error"
event_type withdraws start = "com.easytrade.withdraw.start"
event_type withdraws finish = "com.easytrade.withdraw.finish"
event_type withdraws error = "com.easytrade.withdraw.error"
event_type sells start = "com.easytrade.sell.start"
event_type sells finish = "com.easytrade.sell.finish"
event_type sells error = "com.easytrade.sell.error"
event_type buys start = "com.easytrade.buy.start"
event_type buys finish = "com.easytrade.buy.finish"
event_type buys error = "com.easytrade.buy.error"

-- The body of an event: the request, or a status with or without a message.
pub data EventBody (R : Type 0) : Type 0 where
  request : R → EventBody R
  status_finished : EventBody R
  status_error : String → EventBody R

pub record BizEvent (R : Type 0) : Type 0 where
  pub kind : String
  pub body : EventBody R

-- What a handler does outside: a call of `dynatrace.sendBizEvent`, a call of `dtrum.reportError`
-- and a POST of a request to an endpoint.
pub data Effect (R E : Type 0) : Type 0 where
  send : BizEvent R → Effect R E
  report : E → Effect R E
  post : String → R → Effect R E

-- The injected agents: `send_biz_event` is none if there is no agent, and may throw.
pub record Window (R E : Type 0) : Type 0 where
  pub dynatrace : Option (BizEvent R → Result E (Unit {0}))
  pub dtrum : Bool

pub record QuickTransactionRequest (N : Type 0) : Type 0 where
  pub account_id : N
  pub instrument_id : N
  pub amount : N

pub record LongTransactionRequest (N : Type 0) : Type 0 where
  pub account_id : N
  pub instrument_id : N
  pub amount : N
  pub price : N
  pub duration : N

pub record WithdrawRequest (N : Type 0) : Type 0 where
  pub account_id : N
  pub amount : N
  pub name : String
  pub address : String
  pub email : String
  pub card_number : String
  pub card_type : String

pub record DepositRequest (N : Type 0) : Type 0 where
  pub account_id : N
  pub amount : N
  pub name : String
  pub address : String
  pub email : String
  pub card_number : String
  pub card_type : String
  pub cvv : String

-- The `error` of a response, and the effects on the way to it.
abbrev pub Handled : Type 0 → Type 0 → Type 0
Handled R E = Option String × List (Effect R E)

module _ {R E : Type 0} (w : Window R E) where
  -- `BizEvents.sendBizEvent`
  unfoldable pub send_biz_event : String → EventBody R → List (Effect R E)
  send_biz_event kind body =
      let event : BizEvent R = record { kind = kind; body = body } in
      elim w.dynatrace [
        | none ↦ []
        | some agent ↦ elim (agent event) [
          | ok _ ↦ send event ∷ []
          | err e ↦ send event ∷ (if w.dtrum then report e ∷ [] else [])
        ]
      ]

  -- The `try` and `catch` that four handlers share, around one POST.
  unfoldable pub tracked :
      Operation → String → String → (String → R → Result E (Unit {0})) → R → Handled R E
  unfolding send_biz_event
  tracked op endpoint msg send_post r =
      let started = send_biz_event (event_type op start) (request r) in
      elim (send_post endpoint r) [
        | ok _ ↦ (
          none,
          started ++ (post endpoint r ∷ send_biz_event (event_type op finish) status_finished),
        )
        | err _ ↦ (
          some msg,
          started ++ (post endpoint r ∷ send_biz_event (event_type op error) (status_error msg)),
        )
      ]

-- The same without events.
unfoldable pub untracked :
    {R E : Type 0} → String → String → (String → R → Result E (Unit {0})) → R → Handled R E
untracked endpoint msg send_post r = elim (send_post endpoint r) [
  | ok _ ↦ (none, post endpoint r ∷ [])
  | err _ ↦ (some msg, post endpoint r ∷ [])
]

abbrev pub transaction_msg : String
transaction_msg = "There was an error when creating transaction."

module _ {N : Type 0} (to_number : String → N) where
  abbrev pub quick_request : String → String → N → QuickTransactionRequest N
  quick_request user_id instrument_id amount = record {
    account_id = to_number user_id;
    instrument_id = to_number instrument_id;
    amount = amount;
  }

  abbrev pub long_request : String → String → N → N → N → LongTransactionRequest N
  long_request user_id instrument_id amount price time = record {
    account_id = to_number user_id;
    instrument_id = to_number instrument_id;
    amount = amount;
    price = price;
    duration = time;
  }

  module _ {E : Type 0} (w : Window (QuickTransactionRequest N) E)
      (send_post : String → QuickTransactionRequest N → Result E (Unit {0})) where
    unfoldable pub quick_buy : String → String → N → Handled (QuickTransactionRequest N) E
    unfolding tracked
    quick_buy user_id instrument_id amount =
        tracked w buys "/trade/buy" transaction_msg send_post
          (quick_request user_id instrument_id amount)

    unfoldable pub quick_sell : String → String → N → Handled (QuickTransactionRequest N) E
    unfolding tracked
    quick_sell user_id instrument_id amount =
        tracked w sells "/trade/sell" transaction_msg send_post
          (quick_request user_id instrument_id amount)

  module _ {E : Type 0} (send_post : String → LongTransactionRequest N → Result E (Unit {0})) where
    unfoldable pub buy : String → String → N → N → N → Handled (LongTransactionRequest N) E
    unfolding untracked
    buy user_id instrument_id amount price time =
        untracked "/trade/long/buy" transaction_msg send_post
          (long_request user_id instrument_id amount price time)

    unfoldable pub sell : String → String → N → N → N → Handled (LongTransactionRequest N) E
    unfolding untracked
    sell user_id instrument_id amount price time =
        untracked "/trade/long/sell" transaction_msg send_post
          (long_request user_id instrument_id amount price time)

module _ {N E : Type 0} (show : N → String) where
  unfoldable pub deposit :
      Window (DepositRequest N) E
      → (String → DepositRequest N → Result E (Unit {0}))
      → DepositRequest N
      → Handled (DepositRequest N) E
  unfolding tracked
  deposit w send_post r =
      tracked w deposits ("/balance/" <> show r.account_id <> "/deposit")
        "There was an error processing the deposit" send_post r

  unfoldable pub withdraw :
      Window (WithdrawRequest N) E
      → (String → WithdrawRequest N → Result E (Unit {0}))
      → WithdrawRequest N
      → Handled (WithdrawRequest N) E
  unfolding tracked
  withdraw w send_post r =
      tracked w withdraws ("/balance/" <> show r.account_id <> "/withdraw")
        "There was an error processing the withdraw" send_post r
