-- ===== src/Offer/Catalog/Laws.antt =====
-- What the filters and the providers return.
use mathlib.Core.List.{Mem, Sublist}
use easytrade.Base.{◌≡◌, refl, ◌↔◌, String, Bool, true, false, some}
use easytrade.Base.{List, [], select, includes, string_eq}
use easytrade.Base.Select.{mem-select, select-sublist, select_mono, select_none}
use easytrade.Base.Result.{Result, ok, err}
use easytrade.Offer.Catalog.{Package, Product, PackageFilter, filter_packages}
use easytrade.Offer.Catalog.{array, filter_named, filter_products, get_packages, get_products}

module _ {N : Type 0} (le : N → N → Bool) where
  abbrev pub up_to : N → PackageFilter N
  up_to fee = record { max_yearly_fee = some fee }

  -- With a fee the manager's packages are kept in their order, and exactly those whose price
  -- compares as at most the fee.
  pub get_packages-mem :
      {E F Url : Type 0} (url : Result E Url) (get : Url → Result F (List (Package N))) (u : Url)
      (ps : List (Package N)) (fee : N)
      → url ≡ ok u
      → get u ≡ ok ps
      → let found = get_packages le url get (some (up_to fee)) in
        Sublist found ps × ((p : Package N) → Mem p found ↔ (Mem p ps × (le p.price fee ≡ true)))
  unfolding get_packages filter_packages
  get_packages-mem url get u ps fee built e =
      rw (built, e, get_packages)
        (select-sublist (λ p. le p.price fee) ps, mem-select (λ p. le p.price fee) ps)

  -- A fee that compares with nothing (NaN, the number of a query that is no numeral) leaves no
  -- package, whatever the manager replies.
  get_packages_nan :
      {E F Url : Type 0} (url : Result E Url) (get : Url → Result F (List (Package N))) (fee : N)
      → ((x : N) → le x fee ≡ false)
      → get_packages le url get (some (up_to fee)) ≡ []
  unfolding get_packages filter_packages
  get_packages_nan (err _) get fee nan = refl
  get_packages_nan (ok url) get fee nan =
      elim (get url)
        as (λ r.
          elim r as (λ _. List (Package N)) [ err _ ↦ [] | ok ps ↦ select (λ p. le p.price fee) ps ]
          ≡ []) [ err _ ↦ refl | ok ps ↦ select_none (λ p. le p.price fee) ps (λ p. nan p.price) ]

  -- A larger fee keeps every package that a smaller one keeps, in the same order.
  filter_packages_mono :
      ((x y z : N) → le x y ≡ true → le y z ≡ true → le x z ≡ true)
      → (ps : List (Package N)) (low high : N) → le low high ≡ true
      → Sublist (filter_packages le ps (up_to low)) (filter_packages le ps (up_to high))
  unfolding filter_packages
  filter_packages_mono trans ps low high h =
      select_mono _ _ ps (λ p below. trans p.price low high below h)

-- With names the manager's products are kept in their order, and exactly those that are named.
pub get_products-mem :
    {N E F Url : Type 0} (url : Result E Url) (get : Url → Result F (List (Product N))) (u : Url)
    (ps : List (Product N)) (names : List String)
    → url ≡ ok u
    → get u ≡ ok ps
    → let found = get_products url get (some (record { product_names = some (array names) })) in
      Sublist found ps
      × ((p : Product N) → Mem p found ↔ (Mem p ps × (includes names p.name ≡ true)))
unfolding get_products filter_products filter_named
get_products-mem url get u ps names built e =
    rw (built, e, get_products)
      (select-sublist (λ p. includes names p.name) ps, mem-select (λ p. includes names p.name) ps)
