-- ===== src/Examples/RouteRuns.antt =====
-- The routes, for somebody who is not logged in and for the user 2 without a card.
use easytrade.Base.{◌≡◌, refl, ◌≢◌, inl, true, none, some, arith}
use easytrade.Frontend.Auth.{AuthState, is_logged_in, protected_layout}
use easytrade.Frontend.CardOrder.{not_found}
use easytrade.Frontend.Routes.Laws.{
  opens_at, PlainPages, CardPages, router_pages-opens, redirects-opens,
}

router_pages-opens_example :
    PlainPages (some "2") (some not_found) × CardPages (some "2") (some not_found)
router_pages-opens_example = router_pages-opens (some "2") (some not_found)

nobody : ◌≢◌ {A = AuthState} none (some "")
nobody e = ground arith

redirects-opens_example : opens_at none (some not_found) "/login" ≡ true
unfolding protected_layout is_logged_in
redirects-opens_example = (redirects-opens none "/login" (some not_found) (inl refl)).1 nobody
