-- ===== src/Loadgen/Calculators.antt =====
-- Prices and amounts of scheduled transactions: the calculators of src/loadgen/src/visits
-- (depositAndLongBuy.ts and longSell.ts).
pub mod Laws
use easytrade.Loadgen.Numbers.{Floats}

pub record BuyOptions (N : Type 0) : Type 0 where
  pub balance : N
  pub ask_price : N
  pub max_cost : N

pub record SellOptions (N : Type 0) : Type 0 where
  pub ask_price : N
  pub owned_amount : N
  pub ratio : N

-- `BuyResult` and `SellResult`
pub record Deal (N : Type 0) : Type 0 where
  pub price : N
  pub amount : N

module _ {N : Type 0} (n : Floats N) where
  -- `Math.floor(randomBetween(1, most))`
  unfoldable pub random_amount : N → N
  random_amount most = n.floor (n.random_between (n.decimal 1 0) most)

  unfoldable pub success_buy_calculator : BuyOptions N → Deal N
  success_buy_calculator o =
      let price = n.mul o.ask_price (n.decimal 11 1) in
      record { price = price; amount = random_amount (n.div o.max_cost price) }

  unfoldable pub timeout_buy_calculator : BuyOptions N → Deal N
  timeout_buy_calculator o =
      let price = n.mul o.ask_price (n.decimal 1 2) in
      record { price = price; amount = random_amount (n.div o.max_cost price) }

  unfoldable pub error_buy_calculator : BuyOptions N → Deal N
  error_buy_calculator o =
      let proportion = n.decimal 3 1 in
      record {
        price = n.mul (n.max o.balance o.ask_price) proportion;
        amount = n.ceil (n.div (n.decimal 2 0) proportion);
      }

  unfoldable pub success_sell_calculator : SellOptions N → Deal N
  success_sell_calculator o = record {
    price = n.mul o.ask_price (n.decimal 9 1);
    amount = random_amount (n.mul o.owned_amount o.ratio);
  }

  unfoldable pub timeout_sell_calculator : SellOptions N → Deal N
  timeout_sell_calculator o = record {
    price = n.mul o.ask_price (n.decimal 100 0);
    amount = random_amount (n.mul o.owned_amount o.ratio);
  }

  unfoldable pub error_sell_calculator : SellOptions N → Deal N
  error_sell_calculator o = record {
    price = n.mul o.ask_price (n.decimal 9 1);
    amount = n.mul o.owned_amount (n.decimal 10 0);
  }
