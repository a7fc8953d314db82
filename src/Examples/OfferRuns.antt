-- ===== src/Examples/OfferRuns.antt =====
-- The offer service (src/offerservice/src) on concrete requests, replies and environments.
use easytrade.Base.{ℕ, ◌≡◌, refl, ◌⊎◌, inl, inr, String, Bool, true, false, Option}
use easytrade.Base.{none, some, List, [], ◌∷◌, leb, arith, string_eq}
use easytrade.Base.{option_eq}
use mathlib.Core.List.{Mem, Sublist}
use easytrade.Base.{◌↔◌, includes}
use easytrade.Offer.Catalog.{get_packages}
use easytrade.Offer.Catalog.Offered.{get_offers-mem}
use easytrade.Offer.Catalog.Controller.{OfferData, json}
use easytrade.Base.Dict
use easytrade.Base.Result.{Result, ok}
use easytrade.Offer.Env.{ProcessEnv, EnvVar, EnvManager, Report, check_env_vars, get_env}
use easytrade.Offer.Env.{with_default, note, value_present, has_default}
use easytrade.Offer.Env.Laws.{IsKeyed, check_env_vars-get_env}
use easytrade.Offer.Catalog.{
  Package, Product, packages, products, array, static_packages, get_products,
}
use easytrade.Offer.Catalog.Controller.{GetOffersRequest, get_offers, get_offers_lem, xml}

abbrev no_env : ProcessEnv
no_env _ = none

abbrev deferred_var : EnvVar
deferred_var = record { name = "LATE"; default_value = none; deferred = true }

abbrev small_manager : EnvManager
small_manager = ("APP_PORT", with_default "APP_PORT" "8080") ∷ ("LATE", deferred_var) ∷ []

small_manager-IsKeyed : IsKeyed small_manager
unfolding Dict.lookup string_eq
small_manager-IsKeyed = record { named = (refl, (refl, tt)); nodup = (refl, (refl, tt)) }

abbrev small_report : Report
small_report = record {
  missing = [];
  deferred = "LATE" ∷ [];
  checked = [];
  defaults = "APP_PORT" ∷ [];
}

small_manager_passes : check_env_vars no_env small_manager ≡ ok small_report
unfolding check_env_vars note value_present has_default
small_manager_passes = refl

found_app_port : Dict.lookup "APP_PORT" small_manager ≡ some (with_default "APP_PORT" "8080")
unfolding Dict.lookup string_eq
found_app_port = refl

check_env_vars-get_env_example :
    (value : String) × (get_env no_env small_manager "APP_PORT" ≡ ok value)
    × ((no_env "APP_PORT" ≡ some value) ⊎ ((no_env "APP_PORT" ≡ none) × (some "8080" ≡ some value)))
check_env_vars-get_env_example =
    check_env_vars-get_env no_env small_manager "APP_PORT" small_report
      (with_default "APP_PORT" "8080") small_manager_passes small_manager-IsKeyed found_app_port
      refl

abbrev cents : ℕ → ℕ
cents n = n

abbrev reply_packages : Unit {0} → Result (Unit {0}) (List (Package ℕ))
reply_packages _ = ok (packages cents)

abbrev reply_products : Unit {0} → Result (Unit {0}) (List (Product ℕ))
reply_products _ = ok (products cents)

abbrev built_url : Result (Unit {0}) (Unit {0})
built_url = ok tt

-- A comparison that is false for one number, as `<=` is for NaN.
abbrev le_option : Option ℕ → Option ℕ → Bool
le_option (some a) (some b) = leb a b
le_option none b = false
le_option (some a) none = false

not_below_nan : (x : Option ℕ) → le_option x none ≡ false
not_below_nan none = refl
not_below_nan (some a) = refl

abbrev reply_option_packages : Unit {0} → Result (Unit {0}) (List (Package (Option ℕ)))
reply_option_packages _ = ok (packages some)

leb_trans : (x y z : ℕ) → leb x y ≡ true → leb y z ≡ true → leb x z ≡ true
leb_trans x y z h k = ground arith

abbrev xml_request : GetOffersRequest
xml_request = record {
  platform = "dynatestsieger.at";
  product_filter = some "[\"Share\"]";
  max_yearly_fee_filter = none;
  accept = some "text/xml";
}

abbrev manager_url : Result (Unit {0}) String
manager_url = ok "http://manager"

abbrev manager_products : String → Result (Unit {0}) (List (Product ℕ))
manager_products url = ok (products cents)

get_offers_example :
    get_offers
      (λ _. 10)
      (λ _. some (array ("Share" ∷ [])))
      (λ offer. offer.quote_for)
      (static_packages leb cents)
      (get_products manager_url manager_products)
      xml_request
    ≡ ok (record { status = 200; content_type = "application/xml"; body = xml "dynatestsieger.at" })
get_offers_example =
    ((get_offers_lem (λ _. 10) (λ _. some (array ("Share" ∷ []))) (λ offer. offer.quote_for)
          (static_packages leb cents) (get_products manager_url manager_products) xml_request).1
        (some (array ("Share" ∷ []))) none
        (inr ("[\"Share\"]", array ("Share" ∷ []), refl, refl, refl)) (inl (refl, refl))).0
      (inr refl)

abbrev filter_request : GetOffersRequest
filter_request = record {
  platform = "dynatestsieger.at";
  product_filter = some "[\"Share\"]";
  max_yearly_fee_filter = some "30";
  accept = none;
}

abbrev manager_packages : String → Result (Unit {0}) (List (Package ℕ))
manager_packages url = ok (packages cents)

accepts_json :
    ¬ ((filter_request.accept ≡ some "application/xml") ⊎ (filter_request.accept ≡ some "text/xml"))
accepts_json e = ground arith

get_offers-mem_example :
    (offer : OfferData ℕ) × (get_offers
        (λ _. 3000)
        (λ _. some (array ("Share" ∷ [])))
        (λ offer. offer.quote_for)
        (get_packages leb manager_url manager_packages)
        (get_products manager_url manager_products)
        filter_request
      ≡ ok (record { status = 200; content_type = "application/json"; body = json offer }))
    × (offer.quote_for ≡ "dynatestsieger.at")
    × Sublist offer.packages (packages cents)
    × ((p : Package ℕ)
        → Mem p offer.packages ↔ (Mem p (packages cents) × (leb p.price 3000 ≡ true)))
    × Sublist offer.products (products cents)
    × ((q : Product ℕ)
        → Mem q offer.products ↔ (Mem q (products cents) × (includes ("Share" ∷ []) q.name ≡ true)))
get_offers-mem_example =
    get_offers-mem leb (λ _. 3000) (λ _. some (array ("Share" ∷ []))) (λ offer. offer.quote_for)
      manager_url manager_url manager_packages manager_products filter_request "http://manager"
      "http://manager" (packages cents) (products cents) "30" "[\"Share\"]" ("Share" ∷ []) refl refl
      refl refl refl refl refl accepts_json
