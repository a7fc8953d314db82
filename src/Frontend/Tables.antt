-- ===== src/Frontend/Tables.antt =====
-- What the tables and the pie charts show of their rows: src/frontend/src/components/
-- InstrumentsTable.tsx, TransactionsTable.tsx and charts/TransactionsPieChart.tsx, and the entries of
-- creditCard/CreditCardStatusTimeline.tsx. The grid, the chart and the formatters of prices are
-- libraries' and parameters.
pub mod Laws
use mathlib.Core.Option
use mathlib.Core.List.{reverse}
use easytrade.Base.{ℕ, String, Bool, true, false, Option, none, some, List, [], ◌∷◌, map, select}
use easytrade.Base.{◌==◌, string_eq, if◌then◌else◌}
use easytrade.Base.Text.{Text, codes, split, join, titles}
use easytrade.Base.Dict.{Dict}
use easytrade.Frontend.Forms.{Numbers}
use easytrade.Frontend.Formatter.{Shown, format_date}
use easytrade.Frontend.Prices.{ListedInstrument}
use easytrade.Frontend.Transactions.{Transaction}
use easytrade.Frontend.CardOrder.{OrderStatus, OrderStatusEntry, order_created, card_ordered}
use easytrade.Frontend.CardOrder.{
  card_created, card_shipped, card_delivered, card_error, sequence_error,
}

-- A row of the table of instruments, with its last two cells as they are shown.
pub record InstrumentRow (N : Type 0) : Type 0 where
  pub code : String
  pub name : String
  pub amount : N
  pub price : Text
  pub total_value : Text

-- The icon and the colour of a status.
pub data StatusMark : Type 0 where
  renewing checked crossed : StatusMark

-- A row of the table of transactions; the time is a number of milliseconds.
pub record TransactionRow (N : Type 0) : Type 0 where
  pub action_type : String
  pub mark : StatusMark
  pub status : String
  pub instrument_name : String
  pub amount : N
  pub price : Text
  pub total : Text
  pub end_time : Shown

-- `params.value === "ACTIVE" ? … : params.value === "SUCCESS" ? … : …`
unfoldable pub status_mark : String → StatusMark
status_mark value =
    if value == "ACTIVE" then renewing else if value == "SUCCESS" then checked else crossed

module _ {N : Type 0} (numbers : Numbers N) (price_formatter : N → Text) where
  open numbers use {of_nat, lt, mul}

  -- The value of the column before it is formatted
  unfoldable pub total_value : ListedInstrument N → N
  total_value row = mul row.amount row.close

  unfoldable pub instrument_cells : ListedInstrument N → InstrumentRow N
  unfolding total_value
  instrument_cells row = record {
    code = row.code;
    name = row.name;
    amount = row.amount;
    price = price_formatter row.close;
    total_value = price_formatter (total_value row);
  }

  unfoldable pub instruments_table : List (ListedInstrument N) → List (InstrumentRow N)
  unfolding instrument_cells
  instruments_table instruments =
      map instrument_cells (select (λ i. lt (of_nat 0) i.amount) instruments)

  -- The value options of the two columns with a choice.
  abbrev pub action_options : List String
  action_options = "BUY" ∷ "SELL" ∷ []

  abbrev pub status_options : List String
  status_options = "ACTIVE" ∷ "SUCCESS" ∷ "FAIL" ∷ []

  -- For `new Date(…).getTime()` and the present time
  unfoldable pub transaction_cells : (String → ℕ) → ℕ → Transaction N → TransactionRow N
  unfolding status_mark format_date
  transaction_cells get_time now t = record {
    action_type = t.action_type;
    mark = status_mark t.status;
    status = t.status;
    instrument_name = t.instrument_name;
    amount = t.amount;
    price = price_formatter t.price;
    total = price_formatter (mul t.amount t.price);
    end_time = format_date now (get_time t.end_time);
  }

-- The colours of the theme that the pie charts use.
pub data Colour : Type 0 where
  error_main success_main primary_main : Colour

-- `colors[entry.name]`, with `none` for `undefined`
unfoldable pub colour : String → Option Colour
colour name =
    if name == "FAIL"
    then some error_main
    else if name == "SUCCESS"
    then some success_main
    else if name == "ACTIVE"
    then some primary_main
    else if name == "BUY"
    then some primary_main
    else if name == "SELL"
    then some success_main
    else none

-- The cells of `TransactionsPieChart`
unfoldable pub pie_cells : Dict String ℕ → List (Option Colour)
unfolding colour
pie_cells transaction_data = map (λ (name, value). colour name) transaction_data

abbrev pub status_text : OrderStatus → Text
status_text order_created = codes "order_created"
status_text card_ordered = codes "card_ordered"
status_text card_created = codes "card_created"
status_text card_shipped = codes "card_shipped"
status_text card_delivered = codes "card_delivered"
status_text card_error = codes "card_error"
status_text sequence_error = codes "sequence_error"

-- An entry of the timeline; a title that cannot be made makes the page throw.
pub record TimelineEntry : Type 0 where
  pub shown_time : Shown
  pub shown_title : Option Text
  pub details : String

-- For `toLocaleUpperCase` of a letter, `toLocaleLowerCase`, `Date.parse` and the present time
module _ (upper : ℕ → Text) (lower : Text → Text) (parse : String → ℕ) (now : ℕ) where
  unfoldable pub timeline_entry : OrderStatusEntry → TimelineEntry
  unfolding format_date
  timeline_entry entry = record {
    shown_time = format_date now (parse entry.timestamp);
    shown_title =
        Option.map (join (codes " ")) (titles upper lower (split b'_' (status_text entry.status)));
    details = entry.details;
  }

  unfoldable pub timeline : List OrderStatusEntry → List TimelineEntry
  unfolding timeline_entry
  timeline status_list = reverse (map timeline_entry status_list)
