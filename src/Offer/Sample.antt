-- ===== src/Offer/Sample.antt =====
-- `sampleArray`: src/offerservice/src/utils.ts. The random draws are a parameter: `pick i` is
-- `Math.floor(Math.random() * (i + 1))` at the loop's counter `i`, so `pick i ≤ i`.
pub mod Laws
use easytrade.Base.{ℕ, zero, suc, ◌-◌, Option, none, some, List, [], ◌∷◌, ◌++◌, map}
use easytrade.Base.{length, get_elem?, set, take, replicate}

module _ {A : Type 0} where
  -- `tmp = r[j]; r[j] = r[i]; r[i] = tmp`. An index out of range, which `pick` never gives, changes
  -- nothing.
  unfoldable pub swap : List A → ℕ → ℕ → List A
  swap r i j = elim (get_elem? r j) [
    | none ↦ r
    | some tmp ↦ elim (get_elem? r i) [ none ↦ r | some v ↦ set (set r j v) i tmp ]
  ]

  -- The loop from `i` down to 1.
  unfoldable pub shuffle : (ℕ → ℕ) → ℕ → List A → List A
  unfolding swap
  shuffle pick zero r = r
  shuffle pick (suc i) r = shuffle pick i (swap r (suc i) (pick (suc i)))

  -- `result.length = size`: cut off, or filled up with empty slots.
  unfoldable pub resize : ℕ → List A → List (Option A)
  resize size r = map some (take size r) ++ replicate (size - length r) none

  unfoldable pub sample_array : (ℕ → ℕ) → List A → ℕ → List (Option A)
  unfolding shuffle resize
  sample_array pick array size = resize size (shuffle pick (length array - 1) array)
