-- ===== src/Examples/TableRuns.antt =====
-- Rows of the tables, slices of the charts and entries of the timeline.
use easytrade.Base.{ℕ, String, ◌≡◌, refl, true, some, List, [], ◌∷◌, map, select, All}
use easytrade.Base.{string_eq, ◌≢◌, arith}
use easytrade.Frontend.CardOrder.{not_found}
use easytrade.Frontend.Auth.{AuthState}
use easytrade.Base.Text.{Text}
use easytrade.Base.Result.{Result, ok}
use easytrade.Examples.FormRuns.{naturals, differs}
use easytrade.Frontend.Prices.{ListedInstrument, instruments_data}
use easytrade.Frontend.Transactions.{RawTransaction}
use easytrade.Frontend.Tables.{instruments_table}
use easytrade.Frontend.Tables.Laws.{of_row, of_bar, instruments_table-instruments_data}
use easytrade.Frontend.Shell.{shown_links}
use easytrade.Frontend.Shell.Laws.{Leads, shown_links-Leads}

-- A text of one letter.
abbrev letter : ℕ → Text
letter c = c ∷ []

abbrev two_instruments : List (ListedInstrument ℕ)
two_instruments =
    record { name = "EasyTravel"; code = "EZT"; amount = 3; close = 7 }
    ∷ record { name = "EasyPay"; code = "EZP"; amount = 0; close = 9 }
    ∷ []

instruments_table-instruments_data_example :
    map (of_row naturals letter) (instruments_table naturals letter two_instruments)
    ≡ map (of_bar naturals letter) (
        select
          (λ b. naturals.lt (naturals.of_nat 0) b.amount)
          (instruments_data naturals two_instruments))
instruments_table-instruments_data_example =
    instruments_table-instruments_data naturals letter two_instruments

abbrev one_trade : Result String (List (RawTransaction ℕ))
one_trade = ok (
    record {
      instrument_id = "3";
      direction = "quickbuy";
      quantity = 1;
      entry_price = 2;
      timestamp_close = "now";
      status = "Transaction finished";
    }
    ∷ [])

two_not_empty : ◌≢◌ {A = AuthState} (some "2") (some "")
unfolding string_eq
two_not_empty e = let same : "2" ≡ "" = ground (arith, e) in differs "2" refl same

shown_links-Leads_example : All (Leads (some "2") (some not_found)) (shown_links (some "2") true)
shown_links-Leads_example = shown_links-Leads (some "2") true (some not_found) two_not_empty
