-- ===== src/Frontend/Forms/Trade/Submit.antt =====
-- What a submitted form of an instrument's page does: QuickBuyForm.tsx, QuickSellForm.tsx,
-- BuyForm.tsx and SellForm.tsx of src/frontend/src/components/instrument/forms, and the handlers
-- that contexts/InstrumentContext/context.tsx binds to the user and the instrument.
use easytrade.Base.{String, Option}
use easytrade.Frontend.StatusDisplay.{set_success, set_error, reset_status}
use easytrade.Frontend.Money.{Handled, Effect}
use easytrade.Frontend.Queries.{
  QueryClient, quick_transaction_invalidate_query, transaction_invalidate_query,
}
use easytrade.Frontend.Forms.{Numbers, Form, FormLibrary, watch_change, throwing}
use easytrade.Frontend.Forms.{with_status, with_cache}
use easytrade.Frontend.Forms.Trade.{QuickBuyData, QuickSellData, LongData, TradedInstrument}
use easytrade.Frontend.Forms.Trade.{quick_buy_schema, quick_sell_schema, long_schema}
use easytrade.Frontend.Forms.Trade.{quick_buy_values, quick_sell_values, long_values}

-- What the context gives the forms: the handlers, bound to a user and an instrument.
pub record InstrumentContext (N H K : Type 0) : Type 0 where
  pub instrument : TradedInstrument N
  pub quick_buy_handler : N → H
  pub quick_sell_handler : N → H
  pub buy_handler : N → N → N → K
  pub sell_handler : N → N → N → K

unfoldable pub instrument_provider :
    {N H K : Type 0}
    → TradedInstrument N
    → String
    → (quick_buy quick_sell : String → String → N → H)
    → (buy sell : String → String → N → N → N → K) → InstrumentContext N H K
instrument_provider i user_id quick_buy quick_sell buy sell = record {
  instrument = i;
  quick_buy_handler = λ amount. quick_buy user_id i.id amount;
  quick_sell_handler = λ amount. quick_sell user_id i.id amount;
  buy_handler = λ amount price time. buy user_id i.id amount price time;
  sell_handler = λ amount price time. sell user_id i.id amount price time;
}

module _ {N : Type 0} (numbers : Numbers N) where
  module _ {C V R E K : Type 0} (client : QueryClient C V)
      (context : InstrumentContext N (Handled R E) K) where
    unfoldable pub quick_buy_form :
        FormLibrary (QuickBuyData N) C (Effect R E) (Unit {0})
        → Option N
        → Form (QuickBuyData N) C (Effect R E) (Unit {0})
    unfolding quick_buy_schema quick_buy_values set_success set_error reset_status watch_change
        quick_transaction_invalidate_query
    quick_buy_form lib balance = record {
      defaults = quick_buy_values numbers context.instrument balance;
      schema = quick_buy_schema numbers;
      mutation_fn = λ d. throwing (context.quick_buy_handler d.amount);
      on_mutate = with_status reset_status;
      on_success = λ _ s. with_cache (quick_transaction_invalidate_query client) (
          lib.reset (quick_buy_values numbers context.instrument balance) watch_change
            (with_status (set_success "Transaction successful") s));
      on_error = λ msg. with_status (set_error msg);
    }

    unfoldable pub quick_sell_form :
        FormLibrary (QuickSellData N) C (Effect R E) (Unit {0})
        → Form (QuickSellData N) C (Effect R E) (Unit {0})
    unfolding quick_sell_schema quick_sell_values set_success set_error reset_status watch_change
        quick_transaction_invalidate_query
    quick_sell_form lib = record {
      defaults = quick_sell_values numbers context.instrument;
      schema = quick_sell_schema numbers;
      mutation_fn = λ d. throwing (context.quick_sell_handler d.amount);
      on_mutate = with_status reset_status;
      on_success = λ _ s. with_cache (quick_transaction_invalidate_query client) (
          lib.reset (quick_sell_values numbers context.instrument) watch_change
            (with_status (set_success "Transaction successful") s));
      on_error = λ msg. with_status (set_error msg);
    }

  module _ {C V R E H : Type 0} (client : QueryClient C V)
      (context : InstrumentContext N H (Handled R E)) where
    unfoldable pub buy_form :
        FormLibrary (LongData N) C (Effect R E) (Unit {0})
        → N
        → Form (LongData N) C (Effect R E) (Unit {0})
    unfolding long_schema long_values set_success set_error reset_status watch_change
        transaction_invalidate_query
    buy_form lib undefined = record {
      defaults = long_values numbers undefined context.instrument;
      schema = long_schema numbers;
      mutation_fn = λ d. throwing (context.buy_handler d.amount d.price d.time);
      on_mutate = with_status reset_status;
      on_success = λ _ s. with_cache (transaction_invalidate_query client) (
          lib.reset (long_values numbers undefined context.instrument) watch_change
            (with_status (set_success "Transaction scheduled") s));
      on_error = λ msg. with_status (set_error msg);
    }

    unfoldable pub sell_form :
        FormLibrary (LongData N) C (Effect R E) (Unit {0})
        → N
        → Form (LongData N) C (Effect R E) (Unit {0})
    unfolding long_schema long_values set_success set_error reset_status watch_change
        transaction_invalidate_query
    sell_form lib undefined = record {
      defaults = long_values numbers undefined context.instrument;
      schema = long_schema numbers;
      mutation_fn = λ d. throwing (context.sell_handler d.amount d.price d.time);
      on_mutate = with_status reset_status;
      on_success = λ _ s. with_cache (transaction_invalidate_query client) (
          lib.reset (long_values numbers undefined context.instrument) watch_change
            (with_status (set_success "Transaction scheduled") s));
      on_error = λ msg. with_status (set_error msg);
    }
