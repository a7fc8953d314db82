-- ===== src/Offer/Catalog.antt =====
-- Packages and products: src/offerservice/src/offers (types.ts, const.ts, providers.ts). Prices are
-- any type of numbers with the one comparison that the code makes, `<=`, which is false for NaN. A
-- reply of the manager service is a parameter: its data, or the error of the request.
pub mod Laws
pub mod Controller
pub mod Offered
use easytrade.Base.{ℕ, String, Bool, Option, none, some, List, [], ◌∷◌, select, includes, string_eq}
use easytrade.Base.Text.{codes, contains}
use easytrade.Base.Result.{Result, ok, err}

pub record Package (N : Type 0) : Type 0 where
  pub name : String
  pub price : N
  pub support : List String

pub record Product (N : Type 0) : Type 0 where
  pub name : String
  pub pp_t : N
  pub currency : String

pub record PackageFilter (N : Type 0) : Type 0 where
  pub max_yearly_fee : Option N

-- A parsed JSON text, as far as its method `includes` reads it for a name: an array by the texts in
-- it, a text, or a value that has no such method.
pub data Json : Type 0 where
  array : List String → Json
  text : String → Json
  other : Json

pub record ProductFilter : Type 0 where
  pub product_names : Option Json

-- The static lists, over the number that stands for an amount of cents.
module _ {N : Type 0} (cents : ℕ → N) where
  abbrev pub packages : List (Package N)
  packages =
      record { name = "Starter"; price = cents 0; support = "Email" ∷ [] }
      ∷ record { name = "Light"; price = cents 2499; support = "Email" ∷ "Hotline" ∷ [] }
      ∷ record {
        name = "Pro";
        price = cents 4999;
        support = "Email" ∷ "Hotline" ∷ "AccountManager" ∷ [];
      }
      ∷ []

  abbrev pub products : List (Product N)
  products =
      record { name = "Share"; pp_t = cents 590; currency = "EUR" }
      ∷ record { name = "ETF"; pp_t = cents 590; currency = "EUR" }
      ∷ record { name = "Crypto"; pp_t = cents 590; currency = "EUR" }
      ∷ []

module _ {N : Type 0} (le : N → N → Bool) where
  unfoldable pub filter_packages : List (Package N) → PackageFilter N → List (Package N)
  filter_packages ps filter = elim filter.max_yearly_fee [
    | none ↦ ps
    | some fee ↦ select (λ p. le p.price fee) ps
  ]

  -- `StaticPackageProvider.getPackages`
  unfoldable pub static_packages : (ℕ → N) → Option (PackageFilter N) → List (Package N)
  static_packages cents none = packages cents
  static_packages cents (some filter) = filter_packages (packages cents) filter

  -- `EasyTradePackageProvider.getPackages`: the URL and the request may both throw.
  unfoldable pub get_packages :
      {E F Url : Type 0}
      → Result E Url
      → (Url → Result F (List (Package N)))
      → Option (PackageFilter N)
      → List (Package N)
  get_packages (err _) get filter = []
  get_packages (ok url) get filter = elim (get url) [
    | err _ ↦ []
    | ok ps ↦ elim filter [ none ↦ ps | some f ↦ filter_packages ps f ]
  ]

-- The call of `filter`: `none` is a TypeError, which takes a first product.
unfoldable pub filter_named : {N : Type 0} → List (Product N) → Json → Option (List (Product N))
filter_named ps (array names) = some (select (λ p. includes names p.name) ps)
filter_named ps (text names) = some (select (λ p. contains (codes names) (codes p.name)) ps)
filter_named [] other = some []
filter_named (p ∷ ps) other = none

unfoldable pub filter_products :
    {N : Type 0} → List (Product N) → ProductFilter → Option (List (Product N))
unfolding filter_named
filter_products ps filter = elim filter.product_names [
  | none ↦ some ps
  | some names ↦ filter_named ps names
]

-- `StaticProductProvider.getProducts`: `none` if the promise is rejected.
unfoldable pub static_products :
    {N : Type 0} → (ℕ → N) → Option ProductFilter → Option (List (Product N))
static_products cents none = some (products cents)
static_products cents (some filter) = filter_products (products cents) filter

-- `EasyTradeProductProvider.getProducts`: every error is caught.
unfoldable pub get_products :
    {N E F Url : Type 0}
    → Result E Url
    → (Url → Result F (List (Product N)))
    → Option ProductFilter
    → List (Product N)
get_products (err _) get filter = []
get_products (ok url) get filter = elim (get url) [
  | err _ ↦ []
  | ok ps ↦ elim filter [
    | none ↦ ps
    | some f ↦ elim (filter_products ps f) [ none ↦ [] | some found ↦ found ]
  ]
]
