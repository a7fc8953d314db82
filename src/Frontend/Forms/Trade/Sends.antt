-- ===== src/Frontend/Forms/Trade/Sends.antt =====
-- What the forms of an instrument's page send, with the handlers of their provider.
use easytrade.Base.{◌≡◌, ◌≢◌, true, false, arith, String, Option, some}
use easytrade.Base.Result.{Result}
use easytrade.Frontend.Money.{Handled, Effect, Window, QuickTransactionRequest}
use easytrade.Frontend.Money.{Operation, buys, sells, tracked, untracked}
use easytrade.Frontend.Money.{LongTransactionRequest, quick_buy, quick_sell, buy, sell}
use easytrade.Frontend.Queries.{QueryClient}
use easytrade.Frontend.Forms.{Numbers, FormLibrary, FormState}
use easytrade.Frontend.Forms.Trade.{QuickBuyData, QuickSellData, LongData, TradedInstrument}
use easytrade.Frontend.Forms.Trade.{quick_buy_values, quick_sell_values, quick_buy_total}
use easytrade.Frontend.Forms.Trade.{quick_sell_total}
use easytrade.Frontend.Forms.Trade.Submit.{InstrumentContext, instrument_provider}
use easytrade.Frontend.Forms.Trade.Submit.{quick_buy_form, quick_sell_form, buy_form, sell_form}
use easytrade.Frontend.Forms.Trade.Laws.{quick_buy_promise, quick_sell_promise}
use easytrade.Frontend.Forms.Trade.Laws.{long_promise, quick_buy-Keeps, quick_sell-Keeps, buy-Keeps}
use easytrade.Frontend.Forms.Trade.Laws.{sell-Keeps}
use easytrade.Frontend.Forms.Settled.{IsSettled, submit-IsSettled, sent-Accepts}

-- The context of an instrument's page, with the handlers of src/frontend/src/api.
abbrev pub page_context :
    {N E : Type 0}
    → (String → N)
    → Window (QuickTransactionRequest N) E
    → (String → QuickTransactionRequest N → Result E (Unit {0}))
    → (String → LongTransactionRequest N → Result E (Unit {0}))
    → TradedInstrument N
    → String
    → InstrumentContext N
        (Handled (QuickTransactionRequest N) E)
        (Handled (LongTransactionRequest N) E)
page_context to_number w send_quick send_long i user_id =
    instrument_provider i user_id (quick_buy to_number w send_quick)
      (quick_sell to_number w send_quick) (buy to_number send_long) (sell to_number send_long)

-- What the page's user is to send for its instrument: a quick trade of an amount, tracked as the
-- operation, and a scheduled one.
abbrev quick_trade :
    {N E : Type 0}
    → (String → N)
    → Window (QuickTransactionRequest N) E
    → (String → QuickTransactionRequest N → Result E (Unit {0}))
    → TradedInstrument N
    → String
    → Operation
    → String
    → N
    → Handled (QuickTransactionRequest N) E
quick_trade to_number w send_quick i user_id op path amount =
    tracked w op path "There was an error when creating transaction." send_quick
      (record { account_id = to_number user_id; instrument_id = to_number i.id; amount = amount })

abbrev long_trade :
    {N E : Type 0}
    → (String → N)
    → (String → LongTransactionRequest N → Result E (Unit {0}))
    → TradedInstrument N
    → String
    → String
    → N
    → N
    → N
    → Handled (LongTransactionRequest N) E
long_trade to_number send_long i user_id path amount price time =
    untracked path "There was an error when creating transaction." send_long (record {
      account_id = to_number user_id;
      instrument_id = to_number i.id;
      amount = amount;
      price = price;
      duration = time;
    })

-- The four forms of an instrument's page, with the page's handlers and over any form library:
-- values that a form accepts are sent once, for the page's user and instrument and to the path of
-- the form's trade, a scheduled trade with its coerced numbers, and others change nothing. An error is shown and the values stay; after a success the fields and the total
-- are those that the form starts from, the message is shown, and a quick trade refreshes the
-- balance and the instruments, a scheduled one the transactions.
pub trade_forms-IsSettled :
    {N C V E : Type 0} (numbers : Numbers N) (client : QueryClient C V) (to_number : String → N)
    (w : Window (QuickTransactionRequest N) E)
    (send_quick : String → QuickTransactionRequest N → Result E (Unit {0}))
    (send_long : String → LongTransactionRequest N → Result E (Unit {0})) (i : TradedInstrument N)
    (user_id : String) (balance : Option N) (undefined : N)
    (lib_buy : FormLibrary (QuickBuyData N) C (Effect (QuickTransactionRequest N) E) (Unit {0}))
    (lib_sell : FormLibrary (QuickSellData N) C (Effect (QuickTransactionRequest N) E) (Unit {0}))
    (lib_long : FormLibrary (LongData N) C (Effect (LongTransactionRequest N) E) (Unit {0}))
    (s : FormState (QuickBuyData N) C (Effect (QuickTransactionRequest N) E))
    (t : FormState (QuickSellData N) C (Effect (QuickTransactionRequest N) E))
    (u : FormState (LongData N) C (Effect (LongTransactionRequest N) E))
    → let context = page_context to_number w send_quick send_long i user_id in
      IsSettled
        (quick_buy_promise numbers client i
          (quick_trade to_number w send_quick i user_id buys "/trade/buy")
          balance)
        s
        (lib_buy.submit (quick_buy_form numbers client context lib_buy balance) s)
      × IsSettled
          (quick_sell_promise numbers client i
            (quick_trade to_number w send_quick i user_id sells "/trade/sell"))
          t
          (lib_sell.submit (quick_sell_form numbers client context lib_sell) t)
      × IsSettled
          (long_promise numbers client i
            (long_trade to_number send_long i user_id "/trade/long/buy")
            undefined)
          u
          (lib_long.submit (buy_form numbers client context lib_long undefined) u)
      × IsSettled
          (long_promise numbers client i
            (long_trade to_number send_long i user_id "/trade/long/sell")
            undefined)
          u
          (lib_long.submit (sell_form numbers client context lib_long undefined) u)
unfolding instrument_provider quick_buy quick_sell buy sell
trade_forms-IsSettled numbers client to_number w send_quick send_long i user_id balance undefined
      lib_buy lib_sell lib_long s t u =
    let context = page_context to_number w send_quick send_long i user_id in
    (
      submit-IsSettled _ _ (quick_buy-Keeps numbers client context lib_buy balance) lib_buy s,
      submit-IsSettled _ _ (quick_sell-Keeps numbers client context lib_sell) lib_sell t,
      submit-IsSettled _ _ (buy-Keeps numbers client context lib_long undefined) lib_long u,
      submit-IsSettled _ _ (sell-Keeps numbers client context lib_long undefined) lib_long u,
    )

module _ {N C V E K : Type 0} (numbers : Numbers N) (client : QueryClient C V)
    (context : InstrumentContext N (Handled (QuickTransactionRequest N) E) K) where
  -- If the quick form for purchases sends anything after the user has entered an amount, then it is
  -- a positive one, the total that the form shows is the amount times the price of the instrument,
  -- and that total is no more than the balance.
  pub quick_buy_form-within :
      (lib : FormLibrary (QuickBuyData N) C (Effect (QuickTransactionRequest N) E) (Unit {0}))
      (balance amount : N) (s : FormState (QuickBuyData N) C (Effect (QuickTransactionRequest N) E))
      → numbers.is_undefined amount ≡ false
      → s.values
        ≡ quick_buy_total numbers context.instrument
            (record (quick_buy_values numbers context.instrument (some balance)) {
              amount = amount;
            })
      → (lib.submit (quick_buy_form numbers client context lib (some balance)) s).sent ≢ s.sent
      → (numbers.lt (numbers.of_nat 0) amount ≡ true)
        × (s.values.total ≡ numbers.mul amount context.instrument.close)
        × (numbers.le s.values.total balance ≡ true)
  unfolding quick_buy_total quick_buy_values
  quick_buy_form-within lib balance amount s defined entered sent =
      let bought =
        sent-Accepts _ _ (quick_buy-Keeps numbers client context lib (some balance)) lib s sent in
      ground arith

  -- If the quick form for sales sends anything after the user has entered an amount, then it is a
  -- positive one, the total that the form shows is the amount times the price of the instrument,
  -- and the amount is no more than is owned.
  quick_sell_form-within :
      (lib : FormLibrary (QuickSellData N) C (Effect (QuickTransactionRequest N) E) (Unit {0}))
      (amount : N) (t : FormState (QuickSellData N) C (Effect (QuickTransactionRequest N) E))
      → numbers.is_undefined amount ≡ false
      → t.values
        ≡ quick_sell_total numbers context.instrument
            (record (quick_sell_values numbers context.instrument) { amount = amount })
      → (lib.submit (quick_sell_form numbers client context lib) t).sent ≢ t.sent
      → (numbers.lt (numbers.of_nat 0) amount ≡ true)
        × (t.values.total ≡ numbers.mul amount context.instrument.close)
        × (numbers.le amount context.instrument.amount ≡ true)
  unfolding quick_sell_total quick_sell_values
  quick_sell_form-within lib amount t defined entered sent =
      let sold = sent-Accepts _ _ (quick_sell-Keeps numbers client context lib) lib t sent in
      ground arith
