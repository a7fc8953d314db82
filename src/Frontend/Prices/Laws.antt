-- ===== src/Frontend/Prices/Laws.antt =====
-- The cards of the instruments against the load generator's selectors, and the range of the price
-- chart.
use easytrade.Base.{Bool, ◌≡◌, refl, String, ◌<>◌, true, false, List, [], ◌∷◌, map, All}
use easytrade.Base.{Bool-cases, inl, inr, nat_eq, if◌then◌else◌}
use easytrade.Base.Text.{codes, contains, index_of, starts_with}
use easytrade.Loadgen.Selectors
use easytrade.Frontend.Forms.{Numbers}
use easytrade.Frontend.Services.{Price}
use easytrade.Frontend.Prices.{card_class, card_link, math_min, math_max, min_value, max_value}
use easytrade.Frontend.Prices.{success, error, price_trend, candle_trend}
use easytrade.Base.{◌⊎◌, ap, sym, ◌∙◌}

-- The selector of a link in a `div` whose class contains a text.
abbrev pub card_xpath : String → String
card_xpath needle =
    "//div[contains(@class, \"" <> needle <> "\")]/a[contains(@href, \"instruments\")]"

module _ {N : Type 0} (numbers : Numbers N) where
  -- The load generator's two selectors for cards ask for the classes and the links that the cards
  -- have: every card is found as a card, and as one that is owned exactly if its amount is positive.
  card_class-owned :
      (id : String) (amount : N)
      → (Selectors.instruments_page_instrument_card.xpath ≡ card_xpath "instrument-card")
        × (Selectors.instruments_page_owned_instrument.xpath ≡ card_xpath "owned-instrument")
        × (contains (codes (card_class numbers amount)) (codes "instrument-card") ≡ true)
        × (contains (codes (card_class numbers amount)) (codes "owned-instrument")
            ≡ numbers.lt (numbers.of_nat 0) amount)
        × (contains (card_link numbers id) (codes "instruments") ≡ true)
  unfolding card_class card_link contains index_of starts_with nat_eq
  card_class-owned id amount = elim (Bool-cases (numbers.lt (numbers.of_nat 0) amount)) [
    | inl owned ↦ (refl, refl, rw owned refl, rw owned refl, refl)
    | inr other ↦ (refl, refl, rw other refl, rw other refl, refl)
  ]

  -- Numbers that are ordered: no `NaN` among them.
  pub record IsOrdered : Type 0 where
    pub irreflexive : (a : N) → numbers.lt a a ≡ false
    pub trans :
        (a b c : N) → numbers.lt a b ≡ false → numbers.lt b c ≡ false → numbers.lt a c ≡ false
    pub asym : (a b : N) → numbers.lt a b ≡ true → numbers.lt b a ≡ false

  min_step :
      IsOrdered
      → (m x s : N) → (numbers.lt (if numbers.lt x m then x else m) s ≡ false)
      → (numbers.lt m s ≡ false) × (numbers.lt x s ≡ false)
  min_step o m x s found = elim (Bool-cases (numbers.lt x m)) [
    | inl less ↦
        let lower : numbers.lt x s ≡ false =
          ap (λ b. numbers.lt (if b then x else m) s) (sym less) ∙ found in
        (o.trans m x s (o.asym x m less) lower, lower)
    | inr more ↦
        let lower : numbers.lt m s ≡ false =
          ap (λ b. numbers.lt (if b then x else m) s) (sym more) ∙ found in
        (lower, o.trans x m s more lower)
  ]

  max_step :
      IsOrdered
      → (m x s : N) → (numbers.lt s (if numbers.lt m x then x else m) ≡ false)
      → (numbers.lt s m ≡ false) × (numbers.lt s x ≡ false)
  max_step o m x s found = elim (Bool-cases (numbers.lt m x)) [
    | inl more ↦
        let upper : numbers.lt s x ≡ false =
          ap (λ b. numbers.lt s (if b then x else m)) (sym more) ∙ found in
        (o.trans s x m upper (o.asym m x more), upper)
    | inr less ↦
        let upper : numbers.lt s m ≡ false =
          ap (λ b. numbers.lt s (if b then x else m)) (sym less) ∙ found in
        (upper, o.trans s m x upper less)
  ]

  min_below :
      IsOrdered
      → (m : N) (xs : List N)
      → (numbers.lt m (math_min numbers m xs) ≡ false)
        × All (λ x. numbers.lt x (math_min numbers m xs) ≡ false) xs
  unfolding math_min
  min_below o m [] = (o.irreflexive m, tt)
  min_below o m (x ∷ xs) =
      let (found, rest) = min_below o (if numbers.lt x m then x else m) xs in
      let (first, second) = min_step o m x _ found in (first, (second, rest))

  max_above :
      IsOrdered
      → (m : N) (xs : List N)
      → (numbers.lt (math_max numbers m xs) m ≡ false)
        × All (λ x. numbers.lt (math_max numbers m xs) x ≡ false) xs
  unfolding math_max
  max_above o m [] = (o.irreflexive m, tt)
  max_above o m (x ∷ xs) =
      let (found, rest) = max_above o (if numbers.lt m x then x else m) xs in
      let (first, second) = max_step o m x _ found in (first, (second, rest))

  -- A number that is one of a list.
  pub data IsAmong (s : N) : List N → Type 0 where
    here : {x : N} {xs : List N} → s ≡ x → IsAmong s (x ∷ xs)
    there : {x : N} {xs : List N} → IsAmong s xs → IsAmong s (x ∷ xs)

  keep_one :
      {s x m : N} {xs : List N} (b : Bool)
      → IsAmong s ((if b then x else m) ∷ xs)
      → IsAmong s (m ∷ x ∷ xs)
  keep_one true (here e) = there (here e)
  keep_one true (there h) = there (there h)
  keep_one false (here e) = here e
  keep_one false (there h) = there (there h)

  math_min-IsAmong : (m : N) (xs : List N) → IsAmong (math_min numbers m xs) (m ∷ xs)
  unfolding math_min
  math_min-IsAmong m [] = here refl
  math_min-IsAmong m (x ∷ xs) =
      keep_one (numbers.lt x m) (math_min-IsAmong (if numbers.lt x m then x else m) xs)

  math_max-IsAmong : (m : N) (xs : List N) → IsAmong (math_max numbers m xs) (m ∷ xs)
  unfolding math_max
  math_max-IsAmong m [] = here refl
  math_max-IsAmong m (x ∷ xs) =
      keep_one (numbers.lt m x) (math_max-IsAmong (if numbers.lt m x then x else m) xs)

  -- With ordered numbers, no price of the chart is lower than its minimum or higher than its
  -- maximum, and each of the two is one of the prices or the infinity for no prices.
  price_range :
      IsOrdered
      → (infinity minus_infinity : N) (prices : List (Price N))
      → let lows = map (λ p. p.low) prices in
        let highs = map (λ p. p.high) prices in
        let lowest = min_value numbers infinity prices in
        let highest = max_value numbers minus_infinity prices in
        All (λ x. numbers.lt x lowest ≡ false) lows
        × All (λ x. numbers.lt highest x ≡ false) highs
        × IsAmong lowest (infinity ∷ lows)
        × IsAmong highest (minus_infinity ∷ highs)
  unfolding min_value max_value
  price_range o infinity minus_infinity prices = (
    (min_below o infinity _).1,
    (max_above o minus_infinity _).1,
    math_min-IsAmong infinity _,
    math_max-IsAmong minus_infinity _,
  )

  -- With ordered numbers, the shown price and its candle have the same colour when the price rises and
  -- when it falls; of a price that closes as it opened, the one is an error and the other a success.
  price_trend-candle_trend :
      IsOrdered
      → (a b : N) → (numbers.lt a b ≡ true) ⊎ (numbers.lt b a ≡ true)
      → (price_trend numbers a b ≡ candle_trend numbers a b)
        × (price_trend numbers a a ≡ error)
        × (candle_trend numbers a a ≡ success)
  unfolding price_trend candle_trend
  price_trend-candle_trend o a b (inl rise) =
      (rw (rise, o.asym a b rise) refl, rw (o.irreflexive a) refl, rw (o.irreflexive a) refl)
  price_trend-candle_trend o a b (inr fall) =
      (rw (fall, o.asym b a fall) refl, rw (o.irreflexive a) refl, rw (o.irreflexive a) refl)
