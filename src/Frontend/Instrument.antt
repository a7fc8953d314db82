-- ===== src/Frontend/Instrument.antt =====
-- The page of an instrument: src/frontend/src/pages/protected/Instrument.tsx and
-- components/instrument/InstrumentTransactions.tsx, whose tabs hold the four forms.
use easytrade.Base.{String, none, some, List, [], ◌∷◌, ◌==◌, string_eq, find}
use easytrade.Frontend.Forms.Trade.{TradedInstrument}
use easytrade.Frontend.Forms.Views.{FormView, quick_buy_view, quick_sell_view, buy_view, sell_view}

pub data FormId : Type 0 where
  quick_buy quick_sell buy sell : FormId

-- The tabs: their labels and what they open.
abbrev pub tabs : List (String × FormId)
tabs = ("Quick Buy", quick_buy) ∷ ("Quick Sell", quick_sell) ∷ ("Buy", buy) ∷ ("Sell", sell) ∷ []

abbrev pub initial_form : FormId
initial_form = quick_buy

-- The panel that a tab shows.
unfoldable pub panel : FormId → FormView
panel quick_buy = quick_buy_view
panel quick_sell = quick_sell_view
panel buy = buy_view
panel sell = sell_view

-- What the page shows: an instrument, or it leads back to the list.
pub data InstrumentView (N : Type 0) : Type 0 where
  leads_to : String → InstrumentView N
  shows_instrument : TradedInstrument N → InstrumentView N

unfoldable pub instrument_page :
    {N : Type 0} → List (TradedInstrument N) → String → InstrumentView N
instrument_page instruments id = elim (find (λ x. x.id == id) instruments) [
  | none ↦ leads_to "/instruments"
  | some instrument ↦ shows_instrument instrument
]
