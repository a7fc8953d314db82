-- ===== src/Examples/PriceRuns.antt =====
-- The laws of shown times, cards and charts, with natural numbers.
use easytrade.Base.{ℕ, List, ◌∷◌, [], arith}
use easytrade.Base.{◌≡◌, ◌-◌, length, take, replicate, length-replicate}
use easytrade.Frontend.Formatter.{after}
use easytrade.Frontend.Prices.{price_data, start_index, end_index}
use easytrade.Frontend.Prices.Window.{drop, brush_lem}
use easytrade.Examples.FormRuns.{naturals}
use easytrade.Frontend.Services.{Price}
use easytrade.Frontend.Formatter.{IsBounded, format_date, format_date-IsBounded}
use easytrade.Frontend.Prices.Laws.{IsOrdered}

naturals-IsOrdered : IsOrdered naturals
naturals-IsOrdered = record {
  irreflexive = λ a. ground arith;
  trans = λ a b c h k. ground arith;
  asym = λ a b h. ground arith;
}

format_date-IsBounded_example : IsBounded 100000000 99000000 (format_date 100000000 99000000)
format_date-IsBounded_example = format_date-IsBounded 100000000 99000000

abbrev two_prices : List (Price ℕ)
two_prices =
    record {
      id = "1";
      instrument_id = "2";
      timestamp = "t";
      open_price = 4;
      close = 5;
      high = 6;
      low = 3;
    }
    ∷ record {
      id = "2";
      instrument_id = "2";
      timestamp = "u";
      open_price = 5;
      close = 4;
      high = 7;
      low = 2;
    }
    ∷ []

abbrev price : Price ℕ
price = record {
  id = "1";
  instrument_id = "2";
  timestamp = "t";
  open_price = 4;
  close = 5;
  high = 6;
  low = 3;
}

abbrev many_prices : List (Price ℕ)
many_prices = replicate 200 price

brush_lem_example :
    let shown = price_data naturals (λ t. t) many_prices in
    (start_index shown ≡ after (length many_prices - 200))
    × (end_index shown ≡ after (length many_prices - 1))
    × (drop (length many_prices - 200) shown ≡ price_data naturals (λ t. t) (take 200 many_prices))
brush_lem_example =
    (brush_lem naturals (λ t. t) many_prices).0 (omega (arith, length-replicate 200 price))
