-- ===== src/Offer/Catalog/Controller.antt =====
-- `getOffers`: src/offerservice/src/offers/controller.ts. `Number`, `JSON.parse` and the XML builder
-- are parameters; `parse_json` is `none` where `JSON.parse` throws, and the request then has no
-- response. The providers are any functions from a filter to a list: those of the manager service
-- catch all errors.
use mathlib.Core.Option
use easytrade.Base.{ℕ, ◌≡◌, refl, ◌↔◌, String, Bool, true, false, Option, none, some, List, [], ◌∷◌}
use easytrade.Base.{includes, string_eq, arith, ◌⊎◌, inl, inr, if◌then◌else◌, Bool-cases}
use easytrade.Base.Result.{Result, ok, err}
use easytrade.Offer.Catalog.{Package, Product, PackageFilter, ProductFilter, Json}

pub record GetOffersRequest : Type 0 where
  pub platform : String
  pub product_filter : Option String
  pub max_yearly_fee_filter : Option String
  pub accept : Option String

pub record OfferData (N : Type 0) : Type 0 where
  pub platform : String
  pub quote_for : String
  pub packages : List (Package N)
  pub products : List (Product N)

pub data Body (N : Type 0) : Type 0 where
  json : OfferData N → Body N
  xml : String → Body N

pub record Response (N : Type 0) : Type 0 where
  pub status : ℕ
  pub content_type : String
  pub body : Body N

abbrev pub xml_mime_types : List String
xml_mime_types = "application/xml" ∷ "text/xml" ∷ []

abbrev pub wants_xml : Option String → Bool
wants_xml none = false
wants_xml (some accept) = includes xml_mime_types accept

-- The rejection of the handler's promise.
pub data HandlerError : Type 0 where
  syntax_error : String → HandlerError

module _ {N : Type 0} (to_number : String → N) (parse_json : String → Option Json)
    (build_xml : OfferData N → String) where
  unfoldable pub parse_filter : Option String → Result HandlerError (Option Json)
  parse_filter none = ok none
  parse_filter (some text) = elim (parse_json text) [
    | none ↦ err (syntax_error text)
    | some names ↦ ok (some names)
  ]

  -- The data, as XML if the `Accept` header is one of the two XML types.
  unfoldable pub send : Option String → OfferData N → Response N
  send accept offer =
      if wants_xml accept
      then record { status = 200; content_type = "application/xml"; body = xml (build_xml offer) }
      else record { status = 200; content_type = "application/json"; body = json offer }

  -- `data`, from what the providers return for the parsed filters.
  abbrev pub offer_data :
      (Option (PackageFilter N) → List (Package N))
      → (Option ProductFilter → List (Product N))
      → GetOffersRequest
      → Option Json
      → OfferData N
  offer_data get_packages get_products req names = record {
    platform = "EasyTrade";
    quote_for = req.platform;
    packages =
        get_packages
          (some (record { max_yearly_fee = Option.map to_number req.max_yearly_fee_filter }));
    products = get_products (some (record { product_names = names }));
  }

  unfoldable pub get_offers :
      (Option (PackageFilter N) → List (Package N))
      → (Option ProductFilter → List (Product N))
      → GetOffersRequest
      → Result HandlerError (Response N)
  unfolding parse_filter
  get_offers get_packages get_products req = elim (parse_filter req.product_filter) [
    | err e ↦ err e
    | ok names ↦ ok (send req.accept (offer_data get_packages get_products req names))
  ]

  -- `true` for exactly the two XML types.
  wants_xml_iff :
      (accept : Option String)
      → (wants_xml accept ≡ true) ↔ ((accept ≡ some "application/xml") ⊎ (accept ≡ some "text/xml"))
  wants_xml_iff none = ground arith
  wants_xml_iff (some a) = ground arith

  -- The two filters that a request asks for.
  abbrev pub AsksNames : GetOffersRequest → Option Json → Type 0
  AsksNames req names =
      ((req.product_filter ≡ none) × (names ≡ none))
      ⊎ ((text : String) × (value : Json) × (req.product_filter ≡ some text)
          × (parse_json text ≡ some value)
          × (names ≡ some value))

  abbrev pub AsksFee : GetOffersRequest → Option N → Type 0
  AsksFee req fee =
      ((req.max_yearly_fee_filter ≡ none) × (fee ≡ none))
      ⊎ ((text : String) × (req.max_yearly_fee_filter ≡ some text) × (fee ≡ some (to_number text)))

  parse_filter-AsksNames :
      (req : GetOffersRequest) (names : Option Json)
      → AsksNames req names
      → parse_filter req.product_filter ≡ ok names
  unfolding parse_filter
  parse_filter-AsksNames req names (inl (missing, asked)) = rw (missing, asked) refl
  parse_filter-AsksNames req names (inr (text, value, given, parsed, asked)) =
      rw (given, parse_filter, parsed, asked) refl

  to_number-AsksFee :
      (req : GetOffersRequest) (fee : Option N)
      → AsksFee req fee
      → Option.map to_number req.max_yearly_fee_filter ≡ fee
  to_number-AsksFee req fee (inl (missing, asked)) = rw (missing, asked) refl
  to_number-AsksFee req fee (inr (text, given, asked)) = rw (given, asked) refl

  -- A product filter that is no JSON rejects the request with no response. Otherwise the answer has
  -- status 200 and offers of EasyTrade for the request's platform, with what the two providers
  -- return for the parsed product filter and for the number of the fee's text, each left out if the
  -- request has none: as XML if the `Accept` header is one of the two XML types, and as JSON for
  -- any other or none.
  pub get_offers_lem :
      (get_packages : Option (PackageFilter N) → List (Package N))
      (get_products : Option ProductFilter → List (Product N)) (req : GetOffersRequest)
      → let answer = get_offers get_packages get_products req in
        let is_xml = (req.accept ≡ some "application/xml") ⊎ (req.accept ≡ some "text/xml") in
        ((text : String)
          → req.product_filter ≡ some text
          → parse_json text ≡ none
          → answer ≡ err (syntax_error text))
        × ((names : Option Json) (fee : Option N)
            → AsksNames req names
            → AsksFee req fee
            → let offer : OfferData N = record {
              platform = "EasyTrade";
              quote_for = req.platform;
              packages = get_packages (some (record { max_yearly_fee = fee }));
              products = get_products (some (record { product_names = names }));
            } in
              (is_xml
                → answer
                  ≡ ok (record {
                    status = 200;
                    content_type = "application/xml";
                    body = xml (build_xml offer);
                  }))
              × (¬ is_xml
                  → answer
                    ≡ ok (record {
                      status = 200;
                      content_type = "application/json";
                      body = json offer;
                    })))
  unfolding get_offers send
  get_offers_lem get_packages get_products req = (
    λ text given bad. rw (given, bad, get_offers),
    λ names fee asks_names asks_fee.
        let parsed = parse_filter-AsksNames req names asks_names in
        let number = to_number-AsksFee req fee asks_fee in
        (
          λ is_xml. rw (parsed, get_offers, number, (wants_xml_iff req.accept).1 is_xml) refl,
          λ other. elim (Bool-cases (wants_xml req.accept)) [
            | inl e ↦ absurd (other ((wants_xml_iff req.accept).0 e))
            | inr e ↦ rw (parsed, get_offers, number, e) refl
          ],
        ),
  )
