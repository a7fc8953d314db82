-- ===== src/Offer/Catalog/Offered.antt =====
-- The offers of a request that filters: src/offerservice/src/offers (controller.ts and providers.ts)
-- with the two providers of the manager service.
use mathlib.Core.List.{Mem, Sublist}
use easytrade.Base.{◌≡◌, refl, ◌↔◌, ◌⊎◌, inr, String, Bool, true, Option, some, List, includes}
use easytrade.Base.{string_eq}
use easytrade.Base.Result.{Result, ok}
use easytrade.Offer.Catalog.{Package, Product, Json, array, get_packages, get_products}
use easytrade.Offer.Catalog.Laws.{get_packages-mem, get_products-mem}
use easytrade.Offer.Catalog.Controller.{
  GetOffersRequest, OfferData, json, get_offers, get_offers_lem,
}

module _ {N : Type 0} (le : N → N → Bool) (to_number : String → N)
    (parse_json : String → Option Json) (build_xml : OfferData N → String) {E F Url : Type 0}
    (packages_url products_url : Result E Url) (get_ps : Url → Result F (List (Package N)))
    (get_qs : Url → Result F (List (Product N))) where
  -- If the manager service answers with packages and products, a request with a fee and with an
  -- array of names gets, with status 200, those of the packages, in their order, whose price
  -- compares as at most the fee's number, and those of the products, in their order, that are
  -- named: as JSON, if the `Accept` header is none of the two XML types.
  pub get_offers-mem :
      (req : GetOffersRequest) (u v : Url) (ps : List (Package N)) (qs : List (Product N))
      (fee filter : String) (names : List String)
      → packages_url ≡ ok u
      → get_ps u ≡ ok ps
      → products_url ≡ ok v
      → get_qs v ≡ ok qs
      → req.max_yearly_fee_filter ≡ some fee
      → req.product_filter ≡ some filter
      → parse_json filter ≡ some (array names)
      → ¬ ((req.accept ≡ some "application/xml") ⊎ (req.accept ≡ some "text/xml"))
      → (offer : OfferData N) × (get_offers to_number parse_json build_xml
            (get_packages le packages_url get_ps)
            (get_products products_url get_qs)
            req
          ≡ ok (record { status = 200; content_type = "application/json"; body = json offer }))
        × (offer.quote_for ≡ req.platform)
        × Sublist offer.packages ps
        × ((p : Package N)
            → Mem p offer.packages ↔ (Mem p ps × (le p.price (to_number fee) ≡ true)))
        × Sublist offer.products qs
        × ((q : Product N) → Mem q offer.products ↔ (Mem q qs × (includes names q.name ≡ true)))
  get_offers-mem req u v ps qs fee filter names at_u got_ps at_v got_qs asks_fee asks parsed other =
      let (kept, priced) =
        get_packages-mem le packages_url get_ps u ps (to_number fee) at_u got_ps in
      let (named, listed) = get_products-mem products_url get_qs v qs names at_v got_qs in
      let answered =
        ((get_offers_lem to_number parse_json build_xml (get_packages le packages_url get_ps)
              (get_products products_url get_qs) req).1
            (some (array names)) (some (to_number fee))
            (inr (filter, array names, asks, parsed, refl)) (inr (fee, asks_fee, refl))).1
          other in
      (_, answered, refl, kept, priced, named, listed)
