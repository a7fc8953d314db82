-- ===== src/Base/Select.antt =====
-- `filter` and `find`: what they keep.
use mathlib.Core.Bool.{Bool-discrete}
use mathlib.Core.List.{filter, mem-filter, filter-sublist, Mem, Sublist}
use mathlib.Core.List.Sublist
use easytrade.Base.{◌≡◌, refl, ◌↔◌, Bool, true, false, List, [], ◌∷◌, select, arith, Bool-cases}
use easytrade.Base.{inl, inr}

module _ {ℓ} {A : Type ℓ} where
  select-eq-filter :
      (p : A → Bool) (xs : List A) → select p xs ≡ filter (λ x. Bool-discrete (p x) true) xs
  select-eq-filter p [] = refl
  select-eq-filter p (x ∷ xs) = ground (arith, select-eq-filter p xs)

  pub mem-select :
      (p : A → Bool) (xs : List A) (x : A) → Mem x (select p xs) ↔ (Mem x xs × (p x ≡ true))
  mem-select p xs x = rw select-eq-filter (mem-filter (λ x. Bool-discrete (p x) true))

  pub select-sublist : (p : A → Bool) (xs : List A) → Sublist (select p xs) xs
  select-sublist p xs = rw select-eq-filter (filter-sublist (λ x. Bool-discrete (p x) true))

  pub select_mono :
      (p q : A → Bool) (xs : List A)
      → ((x : A) → p x ≡ true → q x ≡ true)
      → Sublist (select p xs) (select q xs)
  select_mono p q [] h = Sublist.refl []
  select_mono p q (x ∷ xs) h = elim (Bool-cases (p x)) [
    | inl e ↦ rw (e, h x e) (Sublist.cons-cons x (select_mono p q xs h))
    | inr e ↦ elim (Bool-cases (q x)) [
      | inl f ↦ rw (e, f) (Sublist.cons x (select_mono p q xs h))
      | inr f ↦ rw (e, f) (select_mono p q xs h)
    ]
  ]

  pub select_none : (p : A → Bool) (xs : List A) → ((x : A) → p x ≡ false) → select p xs ≡ []
  select_none p [] h = refl
  select_none p (x ∷ xs) h = rw (h x) (select_none p xs h)
