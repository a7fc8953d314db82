-- ===== src/Frontend/Shell/Laws.antt =====
-- That no link leads astray.
use easytrade.Base.{◌≡◌, refl, ◌⊎◌, inl, inr, String, Bool, true, false, Option, none, some}
use easytrade.Base.{All, string_eq, nat_eq, Bool-cases, ◌∙◌}
use easytrade.Base.Text.{codes, contains, index_of, starts_with}
use easytrade.Frontend.Auth.{AuthState, is_logged_in, protected_layout}
use easytrade.Frontend.CardOrder.{
  OrderStatusResponse, success, error, not_found, navigate, is_delivered, credit_card_layout,
}
use easytrade.Frontend.Routes.{base_navigation_path}
use easytrade.Frontend.Routes.Laws.{has_id, opens_at, router_pages-opens, redirects-opens}
use easytrade.Base.{◌≢◌, arith}
use easytrade.Frontend.Shell.{get_preferred_theme, toggle_theme}
use easytrade.Frontend.Shell.{shown_links, navigation_links, app_header}

-- The layout of the card has nothing to show: the request for the order status failed.
abbrev Failed : Option OrderStatusResponse → Type 0
Failed status = (status ≡ none) ⊎ ((m : String) × (status ≡ some (error m)))

-- A link leads to a page that opens; or it is one of the two places that lead on, and they lead on
-- to a page that opens.
abbrev pub Leads : AuthState → Option OrderStatusResponse → String → Type 0
Leads u status link =
    (opens_at u status link ≡ true)
    ⊎ (((link ≡ "/") × (opens_at u status (base_navigation_path u) ≡ true))
        ⊎ ((link ≡ "/credit-card")
            × (Failed status
                ⊎ ((target : String) × (credit_card_layout status (codes link)
                      ≡ navigate (codes target))
                    × (opens_at u status target ≡ true)))))

card-Leads :
    (id : String) (status : Option OrderStatusResponse)
    → has_id (some id) ≡ true
    → Leads (some id) status "/credit-card"
unfolding credit_card_layout contains index_of starts_with nat_eq
card-Leads id none given = inr (inr (refl, inl (inl refl)))
card-Leads id (some (error m)) given = inr (inr (refl, inl (inr (m, refl))))
card-Leads id (some not_found) given =
    let (order, _, _) = (router_pages-opens (some id) (some not_found)).1 in
    inr (inr (refl, inr ("/credit-card/order", refl, rw (order, given) refl)))
card-Leads id (some (success entry)) given =
    let (_, under, active) = (router_pages-opens (some id) (some (success entry))).1 in
    elim (Bool-cases (is_delivered entry.status)) [
      | inl there ↦
          inr
            (inr (refl, inr ("/credit-card/active", rw there refl, rw (active, given, there) refl)))
      | inr open_order ↦ inr (
          inr (
            refl,
            inr ("/credit-card/status", rw open_order refl, rw (under, given, open_order) refl),
          ))
    ]

has_id-some : (id : String) → some id ≢ some "" → has_id (some id) ≡ true
has_id-some id other = ground arith

base-Leads :
    (u : AuthState) (status : Option OrderStatusResponse) → u ≢ some "" → Leads u status "/"
base-Leads u status other =
    inr (inl (refl, (redirects-opens u (base_navigation_path u) status (inr (inr refl))).1 other))

-- Unless the stored user id is the empty text, every link that the header, the navigation and the
-- pages for a log-in show leads to a page that opens for whoever sees it: at once, by the base
-- navigation, or, if the order status of the card is there and no error, by its layout.
pub shown_links-Leads :
    (u : AuthState) (visible : Bool) (status : Option OrderStatusResponse)
    → u ≢ some ""
    → All (Leads u status) (shown_links u visible)
unfolding shown_links app_header navigation_links protected_layout is_logged_in base_navigation_path
shown_links-Leads none visible status other =
    let ((_, _, (login, (signup, _)), (flags, (version, _))), _) = router_pages-opens none status in
    (base-Leads none status other, (inl flags, (inl version, (inl signup, (inl login, tt)))))
shown_links-Leads (some id) true status other =
    let given = has_id-some id other in
    let ((mine, (deposit, (withdraw, _)), _, (flags, (version, _))), _) =
      router_pages-opens (some id) status in
    let (home, (instruments, _)) = mine in
    (
      base-Leads (some id) status other,
      (
        inl flags,
        (
          inl version,
          (
            inl (home ∙ given),
            (
              inl (instruments ∙ given),
              (inl deposit, (inl withdraw, (card-Leads id status given, tt))),
            ),
          ),
        ),
      ),
    )
shown_links-Leads (some id) false status other =
    let ((_, _, _, (flags, (version, _))), _) = router_pages-opens (some id) status in
    (base-Leads (some id) status other, (inl flags, (inl version, tt)))

-- Whatever the browser prefers, a theme that is toggled twice is the one that it was.
toggle_theme-twice :
    (prefers_dark : Bool)
    → let mode = get_preferred_theme prefers_dark in
      (toggle_theme (toggle_theme mode) ≡ mode) × (toggle_theme mode ≢ mode)
unfolding get_preferred_theme toggle_theme
toggle_theme-twice true = (refl, λ e. ground arith)
toggle_theme-twice false = (refl, λ e. ground arith)
