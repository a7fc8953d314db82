-- ===== src/Frontend/Forms/Trade/Laws.antt =====
-- What the forms of an instrument's page promise, and that they keep it.
use easytrade.Base.{◌≡◌, refl, ◌↔◌, true, false, arith, Option}
use easytrade.Frontend.StatusDisplay.{set_success, set_error, reset_status}
use easytrade.Frontend.Money.{Handled, Effect}
use easytrade.Frontend.Queries.{QueryClient, balance_key, instruments_key, transactions_key}
use easytrade.Frontend.Queries.{quick_transaction_invalidate_query, transaction_invalidate_query}
use easytrade.Frontend.Forms.{Numbers, FormLibrary, meets, watch_change}
use easytrade.Frontend.Forms.Trade.{QuickBuyData, QuickSellData, LongData, TradedInstrument}
use easytrade.Frontend.Forms.Trade.{quick_buy_schema, quick_sell_schema, long_schema}
use easytrade.Frontend.Forms.Trade.{quick_buy_values, quick_sell_values, long_values}
use easytrade.Frontend.Forms.Trade.Submit.{InstrumentContext}
use easytrade.Frontend.Forms.Trade.Submit.{quick_buy_form, quick_sell_form, buy_form, sell_form}
use easytrade.Frontend.Forms.Settled.{Promise, Keeps}
use easytrade.Frontend.Forms.Settled.{answered, throwing_lem, shown_if}

module _ {N : Type 0} (numbers : Numbers N) where
  open numbers use {of_nat, is_number, lt, le, mul, coerce}

  -- A quick purchase that the form accepts: it costs no more than the balance.
  pub record IsAffordable (d : QuickBuyData N) : Type 0 where
    pub amount_positive : lt (of_nat 0) d.amount ≡ true
    pub price_positive : lt (of_nat 0) d.price ≡ true
    pub numeric :
        (is_number d.amount ≡ true)
        × (is_number d.price ≡ true)
        × (is_number d.current_balance ≡ true)
        × (is_number d.total ≡ true)
    pub affordable : le (mul d.amount d.price) d.current_balance ≡ true

  -- A quick sale that the form accepts: of no more than is owned.
  pub record IsOwned (d : QuickSellData N) : Type 0 where
    pub amount_positive : lt (of_nat 0) d.amount ≡ true
    pub price_positive : lt (of_nat 0) d.price ≡ true
    pub numeric :
        (is_number d.amount ≡ true)
        × (is_number d.price ≡ true)
        × (is_number d.possessed_amount ≡ true)
        × (is_number d.total ≡ true)
    pub owned : le d.amount d.possessed_amount ≡ true

  -- A scheduled trade that the forms accept: for one to twenty-four hours, at any amount.
  pub record IsScheduled (d : LongData N) : Type 0 where
    pub amount_positive : lt (of_nat 0) (coerce d.amount) ≡ true
    pub price_positive : lt (of_nat 0) (coerce d.price) ≡ true
    pub numeric :
        (is_number (coerce d.amount) ≡ true)
        × (is_number (coerce d.price) ≡ true)
        × (is_number (coerce d.time) ≡ true)
        × (is_number d.total ≡ true)
    pub at_least : le (of_nat 1) (coerce d.time) ≡ true
    pub at_most : le (coerce d.time) (of_nat 24) ≡ true

  quick_buy_same :
      (d : QuickBuyData N) → (meets (quick_buy_schema numbers) d ≡ true) ↔ IsAffordable d
  unfolding quick_buy_schema
  quick_buy_same d = (λ h. ground arith, λ h. ground arith)

  quick_sell_same : (d : QuickSellData N) → (meets (quick_sell_schema numbers) d ≡ true) ↔ IsOwned d
  unfolding quick_sell_schema
  quick_sell_same d = (λ h. ground arith, λ h. ground arith)

  long_same : (d : LongData N) → (meets (long_schema numbers) d ≡ true) ↔ IsScheduled d
  unfolding long_schema
  long_same d = (λ h. ground arith, λ h. ground arith)

  module _ {C V R E : Type 0} (client : QueryClient C V) (i : TradedInstrument N) where
    -- The promise of a quick trade: what is sent for an amount is `trade` of it.
    abbrev quick_promise :
        {F : Type 0} → (F → Type 0) → (F → Handled R E) → F → Promise F C (Effect R E) (Unit {0})
    quick_promise accepts trade blank = record {
      Accepts = accepts;
      answer = λ d. answered (trade d).0;
      posts = λ d. (trade d).1;
      blank = λ _. blank;
      shown = λ _. shown_if false "Transaction successful";
      refreshed =
          λ c. client.invalidate_queries instruments_key (client.invalidate_queries balance_key c);
    }

    abbrev pub quick_buy_promise :
        (N → Handled R E) → Option N → Promise (QuickBuyData N) C (Effect R E) (Unit {0})
    quick_buy_promise trade balance =
        quick_promise IsAffordable (λ d. trade d.amount) (quick_buy_values numbers i balance)

    abbrev pub quick_sell_promise :
        (N → Handled R E) → Promise (QuickSellData N) C (Effect R E) (Unit {0})
    quick_sell_promise trade =
        quick_promise IsOwned (λ d. trade d.amount) (quick_sell_values numbers i)

    -- The promise of both forms for scheduled trades: amount, price and time are coerced.
    abbrev pub long_promise :
        (N → N → N → Handled R E) → N → Promise (LongData N) C (Effect R E) (Unit {0})
    long_promise trade undefined = record {
      Accepts = IsScheduled;
      answer = λ d. answered (trade (coerce d.amount) (coerce d.price) (coerce d.time)).0;
      posts = λ d. (trade (coerce d.amount) (coerce d.price) (coerce d.time)).1;
      blank = λ _. long_values numbers undefined i;
      shown = λ _. shown_if false "Transaction scheduled";
      refreshed = client.invalidate_queries transactions_key;
    }

  module _ {C V R E K : Type 0} (client : QueryClient C V)
      (context : InstrumentContext N (Handled R E) K) where
    module _ (lib : FormLibrary (QuickBuyData N) C (Effect R E) (Unit {0}))
        (balance : Option N) where
      pub quick_buy-Keeps :
          Keeps
            (quick_buy_promise client context.instrument context.quick_buy_handler balance)
            (quick_buy_form numbers client context lib balance)
      unfolding quick_buy_form quick_transaction_invalidate_query set_success set_error reset_status
          watch_change
      quick_buy-Keeps = record {
        same = quick_buy_same;
        calls = λ d. throwing_lem (context.quick_buy_handler d.amount);
        begins = λ s. refl;
        fails = λ msg s sent. refl;
        succeeds = λ _ s sent. rw (lib.resets _ _ _) (ground arith);
      }

    module _ (lib : FormLibrary (QuickSellData N) C (Effect R E) (Unit {0})) where
      pub quick_sell-Keeps :
          Keeps
            (quick_sell_promise client context.instrument context.quick_sell_handler)
            (quick_sell_form numbers client context lib)
      unfolding quick_sell_form quick_transaction_invalidate_query set_success set_error
          reset_status watch_change
      quick_sell-Keeps = record {
        same = quick_sell_same;
        calls = λ d. throwing_lem (context.quick_sell_handler d.amount);
        begins = λ s. refl;
        fails = λ msg s sent. refl;
        succeeds = λ _ s sent. rw (lib.resets _ _ _) (ground arith);
      }

  module _ {C V R E H : Type 0} (client : QueryClient C V)
      (context : InstrumentContext N H (Handled R E)) where
    module _ (lib : FormLibrary (LongData N) C (Effect R E) (Unit {0})) (undefined : N) where
      pub buy-Keeps :
          Keeps
            (long_promise client context.instrument context.buy_handler undefined)
            (buy_form numbers client context lib undefined)
      unfolding buy_form transaction_invalidate_query set_success set_error reset_status
          watch_change
      buy-Keeps = record {
        same = long_same;
        calls = λ d.
            throwing_lem (context.buy_handler (coerce d.amount) (coerce d.price) (coerce d.time));
        begins = λ s. refl;
        fails = λ msg s sent. refl;
        succeeds = λ _ s sent. rw (lib.resets _ _ _) (ground arith);
      }

    module _ (lib : FormLibrary (LongData N) C (Effect R E) (Unit {0})) (undefined : N) where
      pub sell-Keeps :
          Keeps
            (long_promise client context.instrument context.sell_handler undefined)
            (sell_form numbers client context lib undefined)
      unfolding sell_form transaction_invalidate_query set_success set_error reset_status
          watch_change
      sell-Keeps = record {
        same = long_same;
        calls = λ d.
            throwing_lem (context.sell_handler (coerce d.amount) (coerce d.price) (coerce d.time));
        begins = λ s. refl;
        fails = λ msg s sent. refl;
        succeeds = λ _ s sent. rw (lib.resets _ _ _) (ground arith);
      }
