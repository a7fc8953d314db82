-- ===== src/Frontend/Prices/Window.antt =====
-- The candles that the brush of src/frontend/src/components/charts/InstrumentPriceChart.tsx selects.
use mathlib.Core.List.{reverse, reverse-cons, reverse-append}
use easytrade.Base.{ℕ, zero, suc, ◌-◌, ◌≤◌, ◌<◌, ◌≡◌, refl, sym, ap, ◌∙◌, String}
use easytrade.Base.{List, [], ◌∷◌, ◌++◌, map, length, take, length-append, length-map, arith}
use easytrade.Frontend.Formatter.{before, after}
use easytrade.Frontend.Services.{Price}
use easytrade.Frontend.Prices.{candle, minus, price_data, start_index, end_index}
use easytrade.Frontend.Forms.{Numbers}

module _ {A : Type 0} where
  abbrev pub drop : ℕ → List A → List A
  drop zero xs = xs
  drop (suc n) [] = []
  drop (suc n) (x ∷ xs) = drop n xs

  take-drop : (n : ℕ) (xs : List A) → take n xs ++ drop n xs ≡ xs
  take-drop zero xs = refl
  take-drop (suc n) [] = refl
  take-drop (suc n) (x ∷ xs) = ap (λ ys. x ∷ ys) (take-drop n xs)

  length-drop : (n : ℕ) (xs : List A) → n ≤ length xs → length (drop n xs) ≡ length xs - n
  length-drop zero xs h = omega arith
  length-drop (suc n) [] h = absurd (omega arith)
  length-drop (suc n) (x ∷ xs) h = omega (arith, length-drop n xs (omega arith))

  drop-append : (xs ys : List A) → drop (length xs) (xs ++ ys) ≡ ys
  drop-append [] ys = refl
  drop-append (x ∷ xs) ys = drop-append xs ys

  length-reverse : (xs : List A) → length (reverse xs) ≡ length xs
  length-reverse [] = refl
  length-reverse (x ∷ xs) =
      ap length (reverse-cons x xs)
      ∙ length-append (reverse xs) (x ∷ [])
      ∙ omega (arith, length-reverse xs)

  -- What is left of a reversed list once all but `n` are dropped is the reverse of the first `n`.
  drop-reverse :
      (n : ℕ) (xs : List A)
      → n ≤ length xs
      → drop (length xs - n) (reverse xs) ≡ reverse (take n xs)
  drop-reverse n xs h =
      let front = reverse (drop n xs) in
      let size : length xs - n ≡ length front =
        sym (length-reverse (drop n xs) ∙ length-drop n xs h) in
      ap (drop (length xs - n))
        (ap reverse (sym (take-drop n xs)) ∙ reverse-append (take n xs) (drop n xs))
      ∙ ap (λ m. drop m (front ++ reverse (take n xs))) size
      ∙ drop-append front (reverse (take n xs))

map-take : {A B : Type 0} (f : A → B) (n : ℕ) (xs : List A) → map f (take n xs) ≡ take n (map f xs)
map-take f zero xs = refl
map-take f (suc n) [] = refl
map-take f (suc n) (x ∷ xs) = ap (λ ys. f x ∷ ys) (map-take f n xs)

minus-after : (n k : ℕ) → k ≤ n → minus n k ≡ after (n - k)
minus-after n k h = ground arith

minus-before : (n k : ℕ) → n < k → minus n k ≡ before (k - n)
minus-before n k h = ground arith

module _ {N : Type 0} (numbers : Numbers N) (format_time : String → String)
    (prices : List (Price N)) where
  length-price_data : length (price_data numbers format_time prices) ≡ length prices
  unfolding price_data
  length-price_data = length-reverse _ ∙ length-map prices _

  -- With 200 prices or more the chart starts with the candles of the first 200 of them, in the
  -- reverse of their order; with fewer, the brush starts at a negative index.
  pub brush_lem :
      let shown = price_data numbers format_time prices in
      (200 ≤ length prices
        → (start_index shown ≡ after (length prices - 200))
          × (end_index shown ≡ after (length prices - 1))
          × (drop (length prices - 200) shown ≡ price_data numbers format_time (take 200 prices)))
      × (length prices < 200 → start_index shown ≡ before (200 - length prices))
  unfolding start_index end_index price_data
  brush_lem = (
    λ many. (
      ap (λ n. minus n 200) length-price_data ∙ minus-after _ _ many,
      ap (λ n. minus n 1) length-price_data ∙ minus-after _ _ (omega arith),
      ap (λ n. drop (n - 200) (price_data numbers format_time prices))
            (sym (length-map prices (candle format_time)))
          ∙ drop-reverse 200 (map (candle format_time) prices)
              (omega (arith, length-map prices (candle format_time), many))
          ∙ ap reverse (sym (map-take (candle format_time) 200 prices)),
    ),
    λ few. ap (λ n. minus n 200) length-price_data ∙ minus-before _ _ few,
  )
