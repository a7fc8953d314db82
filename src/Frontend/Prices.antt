-- ===== src/Frontend/Prices.antt =====
-- How prices and instruments are shown: src/frontend/src/components/instrument/InstrumentCard.tsx and
-- PriceDisplay.tsx, and the data of the charts in components/charts/InstrumentPriceChart.tsx and
-- InstrumentsChart.tsx. Numbers are any type with the operations of Forms.Numbers; the infinities of
-- `Math.min` and `Math.max` and a subtraction are parameters.
pub mod Laws
pub mod Window
use mathlib.Core.List.{foldl, reverse}
use easytrade.Base.{ℕ, String, ◌<>◌, Bool, true, false, List, [], ◌∷◌, map, ◌++◌, if◌then◌else◌}
use easytrade.Base.Text.{Text, codes}
use easytrade.Base.{◌-◌, leb, length}
use easytrade.Frontend.Formatter.{Relative, before, after}
use easytrade.Frontend.Forms.{Numbers}
use easytrade.Frontend.Services.{Price}

-- The colours that the theme has for a rise and a fall.
pub data Trend : Type 0 where
  success error : Trend

-- A candle of the price chart.
pub record Candle (N : Type 0) : Type 0 where
  pub label : String
  pub open_close : N × N
  pub low_high : N × N

-- A bar of the chart of instruments.
pub record InstrumentBar (N : Type 0) : Type 0 where
  pub name : String
  pub code : String
  pub amount : N
  pub total_value : N

pub record ListedInstrument (N : Type 0) : Type 0 where
  pub name : String
  pub code : String
  pub amount : N
  pub close : N

abbrev pub candle : {N : Type 0} → (String → String) → Price N → Candle N
candle format_time p = record {
  label = format_time p.timestamp;
  open_close = (p.open_price, p.close);
  low_high = (p.low, p.high);
}

module _ {N : Type 0} (numbers : Numbers N) where
  open numbers use {of_nat, lt, add, mul, div}

  -- The class of an instrument's card, and where the card leads.
  unfoldable pub card_class : N → String
  card_class amount =
      if lt (of_nat 0) amount then "instrument-card owned-instrument" else "instrument-card"

  unfoldable pub card_link : String → Text
  card_link id = codes "/instruments/" ++ codes id

  -- `PriceDisplay`: its colour and the percentage, for opening and closing prices.
  unfoldable pub price_trend : N → N → Trend
  price_trend open_price close = if lt open_price close then success else error

  unfoldable pub percent_difference : (N → N → N) → N → N → N
  percent_difference sub open_price close = div (sub close open_price) open_price

  -- `CustomBar`
  unfoldable pub candle_trend : N → N → Trend
  candle_trend open_price close = if lt close open_price then error else success

  unfoldable pub price_data : (String → String) → List (Price N) → List (Candle N)
  price_data format_time prices = reverse (map (candle format_time) prices)

  -- `Math.min` and `Math.max`, from the infinity that they give for no argument
  unfoldable pub math_min : N → List N → N
  math_min m [] = m
  math_min m (x ∷ xs) = math_min (if lt x m then x else m) xs

  unfoldable pub math_max : N → List N → N
  math_max m [] = m
  math_max m (x ∷ xs) = math_max (if lt m x then x else m) xs

  unfoldable pub min_value : N → List (Price N) → N
  unfolding math_min
  min_value infinity prices = math_min infinity (map (λ p. p.low) prices)

  unfoldable pub max_value : N → List (Price N) → N
  unfolding math_max
  max_value minus_infinity prices = math_max minus_infinity (map (λ p. p.high) prices)

  unfoldable pub instruments_data : List (ListedInstrument N) → List (InstrumentBar N)
  instruments_data = map (λ i. record {
    name = i.name;
    code = i.code;
    amount = i.amount;
    total_value = mul i.amount i.close;
  })

-- The difference of two natural numbers, which is negative if the second is greater.
abbrev pub minus : ℕ → ℕ → Relative
minus n k = if leb k n then after (n - k) else before (k - n)

-- The first and the last candle that the brush of the price chart selects.
unfoldable pub start_index : {N : Type 0} → List (Candle N) → Relative
start_index candles = minus (length candles) 200

unfoldable pub end_index : {N : Type 0} → List (Candle N) → Relative
end_index candles = minus (length candles) 1
