-- ===== src/Frontend/Routes.antt =====
-- The routes of src/frontend/src/router.tsx and pages/BaseNavigation.tsx. A route has a place, an
-- element, its loaders and its children; which route a location matches is the router's, so the
-- model only names the pages, which are the routes without children, by their whole paths.
pub mod Laws
use easytrade.Base.{String, ◌<>◌, Bool, true, false, ◌&&◌, Option, none, some, List, [], ◌∷◌, ◌++◌}
use easytrade.Base.{if◌then◌else◌, ◌==◌, string_eq}
use easytrade.Base.Text.{Text, codes, same_text}
use easytrade.Frontend.Auth.{AuthState, is_logged_in, protected_layout, public_layout}
use easytrade.Frontend.Auth.{Guarded, redirect, proceed, load_with_user}
use easytrade.Frontend.CardOrder.{
  OrderStatusResponse, View, failure, navigate, outlet, credit_card_layout,
}

-- The attribute `path`, `index`, or neither.
pub data Place : Type 0 where
  path : String → Place
  index no_path : Place

pub data Element : Type 0 where
  app_layout base_navigation feature_flags version : Element
  public_pages login_page signup_page : Element
  protected_pages withdraw_page deposit_page : Element
  credit_card_pages order_page status_page active_page : Element
  home_page instruments_page instrument_page : Element

pub data Loader : Type 0 where
  preset_users_loader user_loader balance_loader : Loader
  credit_card_status_loader credit_card_status_history_loader : Loader
  instruments_loader transactions_loader instrument_prices_loader : Loader

mutual
  pub data Route : Type 0 where
    route : Place → List Element → List Loader → Routes → Route

  pub data Routes : Type 0 where
    done : Routes
    add : Route → Routes → Routes

-- A page, with the elements and the loaders of the routes around it, the outermost first.
pub record Page : Type 0 where
  pub location : String
  pub elements : List Element
  pub loaders : List Loader

-- A route without children.
abbrev pub page_route : Place → Element → List Loader → Route
page_route place element loaders = route place (element ∷ []) loaders done

abbrev pub credit_card_routes : Route
credit_card_routes =
    route (path "credit-card") (credit_card_pages ∷ []) (credit_card_status_loader ∷ []) (
      add (page_route (path "order") order_page []) (
        add (page_route (path "status") status_page (credit_card_status_history_loader ∷ []))
          (add (page_route (path "active") active_page []) done)))

abbrev pub instrument_routes : Route
instrument_routes = route no_path [] (instruments_loader ∷ []) (
    add (page_route (path "home") home_page (transactions_loader ∷ [])) (
      add
        (route (path "instruments") [] [] (
          add (page_route index instruments_page [])
            (add (page_route (path ":id") instrument_page (instrument_prices_loader ∷ [])) done)))
        done))

abbrev pub protected_routes : Route
protected_routes = route no_path (protected_pages ∷ []) (user_loader ∷ balance_loader ∷ []) (
    add (page_route (path "withdraw") withdraw_page []) (
      add (page_route (path "deposit") deposit_page [])
        (add credit_card_routes (add instrument_routes done))))

abbrev pub element_routes : Route
element_routes = route (path "/") (app_layout ∷ []) [] (
    add (page_route index base_navigation []) (
      add (page_route (path "*") base_navigation []) (
        add (page_route (path "feature-flags") feature_flags []) (
          add (page_route (path "version") version []) (
            add
              (route no_path (public_pages ∷ []) [] (
                add (page_route (path "login") login_page (preset_users_loader ∷ []))
                  (add (page_route (path "signup") signup_page []) done)))
              (add protected_routes done))))))

-- `BaseNavigation`
unfoldable pub base_navigation_path : AuthState → String
unfolding is_logged_in
base_navigation_path user_id = if is_logged_in user_id then "/home" else "/login"

-- The location of a route inside another; the root's is left empty.
abbrev pub inside : String → Place → String
inside outer (path segment) = if segment == "/" then outer else outer <> "/" <> segment
inside outer index = outer
inside outer no_path = outer

-- A route inside a page: its location, and its elements and loaders after the page's.
abbrev pub extend : Page → Place → List Element → List Loader → Page
extend outer place elements loaders = record {
  location = inside outer.location place;
  elements = outer.elements ++ elements;
  loaders = outer.loaders ++ loaders;
}

unfoldable mutual
  pub pages : Page → Route → List Page
  pages outer (route place elements loaders done) = extend outer place elements loaders ∷ []
  pages outer (route place elements loaders (add r rs)) =
      pages (extend outer place elements loaders) r
      ++ pages_of (extend outer place elements loaders) rs

  pub pages_of : Page → Routes → List Page
  pages_of outer done = []
  pages_of outer (add r rs) = pages outer r ++ pages_of outer rs

-- The pages of the router.
abbrev pub router_pages : List Page
unfolding pages
router_pages = pages (record { location = ""; elements = []; loaders = [] }) element_routes

-- Whether a guard lets the rest through.
abbrev proceeds : {A : Type 0} → Guarded A → Bool
proceeds (redirect _) = false
proceeds (proceed _) = true

-- Whether the layout of the credit card shows its page: it neither throws nor leads away.
abbrev pub is_outlet : View → Bool
is_outlet (failure _) = false
is_outlet (navigate _) = false
is_outlet outlet = true

-- Whether an element shows what is inside it at a location; the second argument is the order status
-- that the layout of the credit card gets. `BaseNavigation` always leads away.
unfoldable pub shows : AuthState → Option OrderStatusResponse → Text → Element → Bool
unfolding protected_layout public_layout
shows user_id status location protected_pages = proceeds (protected_layout user_id)
shows user_id status location public_pages = proceeds (public_layout user_id)
shows user_id status location base_navigation = false
shows user_id status location credit_card_pages = is_outlet (credit_card_layout status location)
shows user_id status location _ = true

unfoldable pub shows_all : AuthState → Option OrderStatusResponse → Text → List Element → Bool
unfolding shows
shows_all user_id status location [] = true
shows_all user_id status location (e ∷ es) =
    shows user_id status location e && shows_all user_id status location es

-- Whether a loader does not redirect. The loader of the user and the balance gives the list of what
-- `loadWithUser` makes of the two; the components call these, and the router follows no redirect.
unfoldable pub loads : AuthState → Loader → Bool
unfolding load_with_user
loads user_id preset_users_loader = true
loads user_id instrument_prices_loader = true
loads user_id user_loader = true
loads user_id balance_loader = true
loads user_id _ = proceeds (load_with_user user_id (λ id. tt))

unfoldable pub loads_all : AuthState → List Loader → Bool
unfolding loads
loads_all user_id [] = true
loads_all user_id (l ∷ ls) = loads user_id l && loads_all user_id ls

-- Whether there is a page with this location, no loader redirects and all around it shows it.
unfoldable pub opens : AuthState → Option OrderStatusResponse → List Page → Text → Bool
unfolding shows_all loads_all
opens user_id status [] location = false
opens user_id status (p ∷ ps) location =
    if same_text (codes p.location) location
    then loads_all user_id p.loaders && shows_all user_id status location p.elements
    else opens user_id status ps location
