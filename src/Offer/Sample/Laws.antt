-- ===== src/Offer/Sample/Laws.antt =====
-- A sample is a part of a permutation.
use mathlib.Core.List.{Perm, perm-cons, append-nil}
use mathlib.Core.List.Perm
use easytrade.Base.{ℕ, zero, suc, ◌-◌, ◌≤◌, ◌≡◌, refl, ap, ◌∙◌, none, some}
use easytrade.Base.{List, [], ◌∷◌, ◌++◌, map, arith, length, get_elem?, set, take, replicate}
use easytrade.Base.{length-set, Option-cases, inl, inr}
use easytrade.Offer.Sample.{swap, shuffle, sample_array}

module _ {A : Type 0} where
  set-perm : (r : List A) (i : ℕ) (v w : A) → get_elem? r i ≡ some v → Perm (v ∷ set r i w) (w ∷ r)
  set-perm [] i v w e = cc
  set-perm (x ∷ r) zero v w e = let same : x ≡ v = cc in rw (← same) (Perm.swap w x r)
  set-perm (x ∷ r) (suc i) v w e =
      Perm.trans (Perm.swap x v (set r i w))
        (Perm.trans (Perm.cons x (set-perm r i v w e)) (Perm.swap w x r))

  get-set :
      (r : List A) (i j : ℕ) (v : A) → get_elem? r i ≡ some v → get_elem? (set r j v) i ≡ some v
  get-set [] i j v e = e
  get-set (x ∷ r) zero zero v e = refl
  get-set (x ∷ r) zero (suc j) v e = e
  get-set (x ∷ r) (suc i) zero v e = e
  get-set (x ∷ r) (suc i) (suc j) v e = get-set r i j v e

  swap-perm : (r : List A) (i j : ℕ) → Perm (swap r i j) r
  unfolding swap
  swap-perm r i j = elim (Option-cases (get_elem? r j)) [
    | inl e ↦ rw (e, swap) (Perm.refl r)
    | inr (a, e) ↦ elim (Option-cases (get_elem? r i)) [
      | inl f ↦ rw (e, swap, f) (Perm.refl r)
      | inr (b, f) ↦
          rw (e, swap, f)
            ((perm-cons b).0
              (Perm.trans (set-perm (set r j b) i b a (get-set r i j b f)) (set-perm r j a b e)))
    ]
  ]

  length-swap : (r : List A) (i j : ℕ) → length (swap r i j) ≡ length r
  unfolding swap
  length-swap r i j = elim (Option-cases (get_elem? r j)) [
    | inl e ↦ rw (e, swap)
    | inr (a, e) ↦ elim (Option-cases (get_elem? r i)) [
      | inl f ↦ rw (e, swap, f)
      | inr (b, f) ↦ rw (e, swap, f) (rw (length-set, length-set))
    ]
  ]

  -- The loop permutes the array, whatever is drawn.
  pub shuffle-perm : (pick : ℕ → ℕ) (i : ℕ) (r : List A) → Perm (shuffle pick i r) r
  unfolding shuffle
  shuffle-perm pick zero r = Perm.refl r
  shuffle-perm pick (suc i) r =
      Perm.trans (shuffle-perm pick i (swap r (suc i) (pick (suc i))))
        (swap-perm r (suc i) (pick (suc i)))

  length-shuffle : (pick : ℕ → ℕ) (i : ℕ) (r : List A) → length (shuffle pick i r) ≡ length r
  unfolding shuffle
  length-shuffle pick zero r = refl
  length-shuffle pick (suc i) r =
      length-shuffle pick i (swap r (suc i) (pick (suc i))) ∙ length-swap r (suc i) (pick (suc i))

  take_rest :
      (n : ℕ) (r : List A)
      → n ≤ length r
      → (rest : List A) × (take n r ++ rest ≡ r) × (length (take n r) ≡ n)
  take_rest zero r h = (r, refl, refl)
  take_rest (suc n) [] h = elim h [ ]
  take_rest (suc n) (x ∷ r) h =
      let (rest, whole, count) = take_rest n r (omega arith) in
      (rest, ap (◌∷◌ x) whole, ap suc count)

  take_all : (n : ℕ) (r : List A) → length r ≤ n → take n r ≡ r
  take_all zero [] h = refl
  take_all zero (x ∷ r) h = elim h [ ]
  take_all (suc n) [] h = refl
  take_all (suc n) (x ∷ r) h = ap (◌∷◌ x) (take_all n r (omega arith))

  -- A sample of at most as many elements as there are has that size and no empty slot, and with
  -- some rest it is a permutation of the array: nothing is drawn twice.
  pub sample_array-perm :
      (pick : ℕ → ℕ) (array : List A) (size : ℕ)
      → size ≤ length array
      → (drawn : List A) × (rest : List A) × (sample_array pick array size ≡ map some drawn)
        × (length drawn ≡ size)
        × Perm (drawn ++ rest) array
  unfolding sample_array
  sample_array-perm pick array size h =
      let r = shuffle pick (length array - 1) array in
      let same = length-shuffle pick (length array - 1) array in
      let (rest, whole, count) = take_rest size r (omega arith) in
      let full : size - length r ≡ 0 = omega arith in
      (
        take size r,
        rest,
        rw (full, append-nil),
        count,
        rw whole (shuffle-perm pick (length array - 1) array),
      )

  -- A sample of more elements than there are is a permutation of the array, followed by as many
  -- empty slots as are missing.
  sample_array_too_large :
      (pick : ℕ → ℕ) (array : List A) (size : ℕ)
      → length array ≤ size
      → (drawn : List A) × (sample_array pick array size
          ≡ map some drawn ++ replicate (size - length array) none)
        × Perm drawn array
  unfolding sample_array
  sample_array_too_large pick array size h =
      let r = shuffle pick (length array - 1) array in
      let same = length-shuffle pick (length array - 1) array in
      (r, rw (take_all size r (omega arith), same), shuffle-perm pick (length array - 1) array)
