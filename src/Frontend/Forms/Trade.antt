-- ===== src/Frontend/Forms/Trade.antt =====
-- The values of the forms of an instrument's page, and what is checked and computed of them:
-- QuickBuyForm.tsx, QuickSellForm.tsx, BuyForm.tsx and SellForm.tsx of
-- src/frontend/src/components/instrument/forms.
pub mod Submit
pub mod Laws
pub mod Sends
use easytrade.Base.{String, Option, none, some, [], ◌∷◌, if◌then◌else◌}
use easytrade.Frontend.Forms.{Numbers, rule, Schema}

pub record QuickBuyData (N : Type 0) : Type 0 where
  pub amount : N
  pub price : N
  pub current_balance : N
  pub total : N

pub record QuickSellData (N : Type 0) : Type 0 where
  pub amount : N
  pub price : N
  pub possessed_amount : N
  pub total : N

-- The values of both forms for scheduled trades.
pub record LongData (N : Type 0) : Type 0 where
  pub amount : N
  pub price : N
  pub time : N
  pub total : N

-- The fields of an instrument that the forms read.
pub record TradedInstrument (N : Type 0) : Type 0 where
  pub id : String
  pub close : N
  pub amount : N

module _ {N : Type 0} (numbers : Numbers N) where
  open numbers use {of_nat, is_undefined, is_number, lt, le, add, mul, div, floor, ceil, coerce}

  -- `value ?? alternative`
  abbrev pub or_else : N → N → N
  or_else a b = if is_undefined a then b else a

  unfoldable pub quick_buy_schema : Schema (QuickBuyData N)
  quick_buy_schema = record {
    coerces = λ d. d;
    rules =
        rule "amount" "Amount is required" (λ d. is_number d.amount)
        ∷ rule "amount" "Amount must be greater than 0" (λ d. lt (of_nat 0) d.amount)
        ∷ rule "price" "Price is required" (λ d. is_number d.price)
        ∷ rule "price" "Price must be grater than 0" (λ d. lt (of_nat 0) d.price)
        ∷ rule "currentBalance" "Current balance is required" (λ d. is_number d.current_balance)
        ∷ rule "total" "Total price is required" (λ d. is_number d.total)
        ∷ rule "total" "Total price can't exceed current balance"
            (λ d. le (mul d.amount d.price) d.current_balance)
        ∷ [];
  }

  unfoldable pub quick_sell_schema : Schema (QuickSellData N)
  quick_sell_schema = record {
    coerces = λ d. d;
    rules =
        rule "amount" "Amount is required" (λ d. is_number d.amount)
        ∷ rule "amount" "Amount must be greater than 0" (λ d. lt (of_nat 0) d.amount)
        ∷ rule "price" "Price is required" (λ d. is_number d.price)
        ∷ rule "price" "Price must be grater than 0" (λ d. lt (of_nat 0) d.price)
        ∷ rule "possessedAmount" "Possessed amount is required" (λ d. is_number d.possessed_amount)
        ∷ rule "total" "Total price is required" (λ d. is_number d.total)
        ∷ rule "amount" "Can't sell more assets than possessed"
            (λ d. le d.amount d.possessed_amount)
        ∷ [];
  }

  unfoldable pub long_schema : Schema (LongData N)
  long_schema = record {
    coerces =
        λ d. record d { amount = coerce d.amount; price = coerce d.price; time = coerce d.time };
    rules =
        rule "amount" "Amount is required" (λ d. is_number d.amount)
        ∷ rule "amount" "Amount must be greater than 0" (λ d. lt (of_nat 0) d.amount)
        ∷ rule "price" "Price is required" (λ d. is_number d.price)
        ∷ rule "price" "Price must be grater than 0" (λ d. lt (of_nat 0) d.price)
        ∷ rule "time" "Time range is required" (λ d. is_number d.time)
        ∷ rule "time" "Time range must be at least 1h" (λ d. le (of_nat 1) d.time)
        ∷ rule "time" "Time range must be at most 24h" (λ d. le d.time (of_nat 24))
        ∷ rule "total" "Total price is required" (λ d. is_number d.total)
        ∷ [];
  }

  -- The values that the forms start from; no balance is an unknown one.
  unfoldable pub quick_buy_values : TradedInstrument N → Option N → QuickBuyData N
  quick_buy_values i balance = record {
    amount = of_nat 0;
    price = i.close;
    current_balance = elim balance [ none ↦ of_nat 0 | some value ↦ value ];
    total = of_nat 0;
  }

  unfoldable pub quick_sell_values : TradedInstrument N → QuickSellData N
  quick_sell_values i = record {
    amount = of_nat 0;
    price = i.close;
    possessed_amount = i.amount;
    total = of_nat 0;
  }

  -- The default values of a scheduled trade, where the amount is left undefined.
  unfoldable pub long_values : N → TradedInstrument N → LongData N
  long_values undefined i = record {
    amount = undefined;
    price = i.close;
    time = of_nat 1;
    total = of_nat 0;
  }

  -- The effects that keep the total up to date.
  unfoldable pub quick_buy_total : TradedInstrument N → QuickBuyData N → QuickBuyData N
  quick_buy_total i d = record d { total = mul (or_else d.amount (of_nat 0)) i.close }

  unfoldable pub quick_sell_total : TradedInstrument N → QuickSellData N → QuickSellData N
  quick_sell_total i d = record d { total = mul (or_else d.amount (of_nat 0)) i.close }

  unfoldable pub long_total : LongData N → LongData N
  long_total d = record d {
    total = mul (coerce (or_else d.amount (of_nat 0))) (coerce (or_else d.price (of_nat 0)));
  }

  -- The entries of the autofill menus.
  abbrev pub set_values : N → N → N → LongData N → LongData N
  set_values amount price time d = record d { amount = amount; price = price; time = time }

  unfoldable pub buy_success : N → N → LongData N → LongData N
  buy_success available_balance price =
      set_values (floor (div (or_else available_balance price) price)) price (of_nat 1)

  unfoldable pub buy_fail : N → N → LongData N → LongData N
  buy_fail available_balance price =
      set_values (add (ceil (div (or_else available_balance (of_nat 1000000)) price)) (of_nat 1))
        price (of_nat 1)

  unfoldable pub buy_timeout : N → N → LongData N → LongData N
  buy_timeout available_balance price =
      set_values (floor (div (or_else available_balance price) price)) (div price (of_nat 1000))
        (of_nat 1)

  unfoldable pub sell_success : N → N → LongData N → LongData N
  sell_success amount price = set_values amount price (of_nat 1)

  unfoldable pub sell_fail : N → N → LongData N → LongData N
  sell_fail amount price = set_values (add amount (of_nat 1)) price (of_nat 1)

  unfoldable pub sell_timeout : N → N → LongData N → LongData N
  sell_timeout amount price = set_values amount (add price (of_nat 1000)) (of_nat 1)
