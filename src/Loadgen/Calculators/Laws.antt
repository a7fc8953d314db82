-- ===== src/Loadgen/Calculators/Laws.antt =====
-- Bounds of the amounts.
use easytrade.Base.{◌≡◌, true}
use easytrade.Loadgen.Numbers.{Floats}
use easytrade.Loadgen.Calculators.{BuyOptions, SellOptions, random_amount}
use easytrade.Loadgen.Calculators.{success_buy_calculator, timeout_buy_calculator}
use easytrade.Loadgen.Calculators.{success_sell_calculator, timeout_sell_calculator}

module _ {N : Type 0} (n : Floats N) where
  infix 4 ◌≼◌
  abbrev ◌≼◌ : N → N → Type 0
  x ≼ y = n.le x y ≡ true

  abbrev pub one : N
  one = n.decimal 1 0

  -- What the amounts rely on: the order is transitive, `floor` goes down and not below a whole
  -- number that is below its argument, and a random number lies in its interval.
  pub record IsRounding : Type 0 where
    pub le_trans : (x y z : N) → x ≼ y → y ≼ z → x ≼ z
    pub floor-le : (x : N) → x ≼ x → n.floor x ≼ x
    pub one-le-floor : (x : N) → one ≼ x → one ≼ n.floor x
    pub le_self : (x y : N) → x ≼ y → y ≼ y
    pub between : (x y : N) → x ≼ y → (x ≼ n.random_between x y) × (n.random_between x y ≼ y)

  module _ (laws : IsRounding) where
    open laws use {le_trans, floor-le, one-le-floor, le_self, between}

    random_amount_bounds :
        (most : N) → one ≼ most → (one ≼ random_amount n most) × (random_amount n most ≼ most)
    unfolding random_amount
    random_amount_bounds most h =
        let r = n.random_between one most in
        let (low, high) = between one most h in
        (one-le-floor r low, le_trans (n.floor r) r most (floor-le r (le_self one r low)) high)

    -- If the budget pays for one share at the calculated price, both buy calculators ask for at
    -- least one share and at most the budget divided by that price.
    pub buy_calculators_bounds :
        (o : BuyOptions N)
        → let success = success_buy_calculator n o in
          let timeout = timeout_buy_calculator n o in
          (one ≼ n.div o.max_cost success.price
            → (one ≼ success.amount) × (success.amount ≼ n.div o.max_cost success.price))
          × (one ≼ n.div o.max_cost timeout.price
              → (one ≼ timeout.amount) × (timeout.amount ≼ n.div o.max_cost timeout.price))
    unfolding success_buy_calculator timeout_buy_calculator
    buy_calculators_bounds o = (random_amount_bounds _, random_amount_bounds _)

    -- If the ratio of the owned shares is one share at least, the success and timeout sell
    -- calculators ask for at least one share and at most that ratio.
    sell_calculators_bounds :
        (o : SellOptions N)
        → let most = n.mul o.owned_amount o.ratio in
          let success = success_sell_calculator n o in
          let timeout = timeout_sell_calculator n o in
          one ≼ most
          → (one ≼ success.amount)
            × (success.amount ≼ most)
            × (one ≼ timeout.amount)
            × (timeout.amount ≼ most)
    unfolding success_sell_calculator timeout_sell_calculator
    sell_calculators_bounds o h =
        let (low, high) = random_amount_bounds (n.mul o.owned_amount o.ratio) h in
        (low, high, low, high)
