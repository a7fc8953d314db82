-- ===== src/Frontend/Routes/Laws.antt =====
-- Who can open which page of the router, and where its redirects lead.
use easytrade.Base.{
  ◌≡◌, refl, ◌≢◌, ◌↔◌, ◌⊎◌, inl, inr, String, true, false, Option, none, some, [], ◌∷◌, All, arith,
}
use easytrade.Base.{Bool, not, ◌&&◌, string_eq, nat_eq, ap, sym, Bool-cases, ◌==◌}
use easytrade.Base.Text.{codes, same_text, contains, index_of, starts_with}
use easytrade.Frontend.Auth.{AuthState, is_logged_in, protected_layout, public_layout, redirect}
use easytrade.Frontend.Auth.{load_with_user}
use easytrade.Frontend.CardOrder.{
  OrderStatusResponse, success, error, not_found, is_delivered, credit_card_layout,
}
use easytrade.Frontend.Routes.{router_pages, opens, base_navigation_path, pages, shows, shows_all}
use easytrade.Frontend.Routes.{is_outlet, loads, loads_all}

-- `true` for a stored id that is not the empty text.
abbrev pub has_id : AuthState → Bool
has_id none = false
has_id (some id) = not (id == "")

-- The orders of a card whose page is the order form, the status or the active card.
abbrev pub not_ordered : Option OrderStatusResponse → Bool
not_ordered none = false
not_ordered (some (error _)) = false
not_ordered (some not_found) = true
not_ordered (some (success _)) = false

abbrev pub delivered : Option OrderStatusResponse → Bool
delivered none = false
delivered (some (error _)) = false
delivered (some not_found) = false
delivered (some (success entry)) = is_delivered entry.status

abbrev pub under_way : Option OrderStatusResponse → Bool
under_way none = false
under_way (some (error _)) = false
under_way (some not_found) = false
under_way (some (success entry)) = not (is_delivered entry.status)

abbrev pub opens_at : AuthState → Option OrderStatusResponse → String → Bool
opens_at u status location = opens u status router_pages (codes location)

-- The pages without the card: for every order status.
abbrev pub PlainPages : AuthState → Option OrderStatusResponse → Type 0
PlainPages u status =
    All (λ l. opens_at u status l ≡ has_id u) ("/home" ∷ "/instruments" ∷ "/instruments/:id" ∷ [])
    × All (λ l. opens_at u status l ≡ is_logged_in u) ("/deposit" ∷ "/withdraw" ∷ [])
    × All (λ l. opens_at u status l ≡ not (is_logged_in u)) ("/login" ∷ "/signup" ∷ [])
    × All (λ l. opens_at u status l ≡ true) ("/feature-flags" ∷ "/version" ∷ [])

opens-PlainPages : (u : AuthState) (status : Option OrderStatusResponse) → PlainPages u status
unfolding opens shows_all shows loads_all loads pages protected_layout public_layout is_logged_in
    load_with_user same_text nat_eq string_eq
opens-PlainPages none status =
    ((refl, (refl, (refl, tt))), (refl, (refl, tt)), (refl, (refl, tt)), (refl, (refl, tt)))
opens-PlainPages (some id) status = elim (Bool-cases (id == "")) [
  | inl empty ↦
      rw empty
        ((refl, (refl, (refl, tt))), (refl, (refl, tt)), (refl, (refl, tt)), (refl, (refl, tt)))
  | inr other ↦
      rw other
        ((refl, (refl, (refl, tt))), (refl, (refl, tt)), (refl, (refl, tt)), (refl, (refl, tt)))
]

and_true : (b : Bool) → (b && true) ≡ b
and_true true = refl
and_true false = refl

-- Where the layout of the card shows what is inside it.
credit_card_layout-shows :
    (status : Option OrderStatusResponse)
    → (is_outlet (credit_card_layout status (codes "/credit-card/order")) ≡ not_ordered status)
      × (is_outlet (credit_card_layout status (codes "/credit-card/status")) ≡ under_way status)
      × (is_outlet (credit_card_layout status (codes "/credit-card/active")) ≡ delivered status)
unfolding credit_card_layout contains index_of starts_with nat_eq
credit_card_layout-shows none = (refl, refl, refl)
credit_card_layout-shows (some (error _)) = (refl, refl, refl)
credit_card_layout-shows (some not_found) = (refl, refl, refl)
credit_card_layout-shows (some (success entry)) = elim (Bool-cases (is_delivered entry.status)) [
  | inl there ↦ rw there (refl, refl, refl)
  | inr open_order ↦ rw open_order (refl, refl, refl)
]

-- The three pages of the card.
abbrev pub CardPages : AuthState → Option OrderStatusResponse → Type 0
CardPages u status =
    (opens_at u status "/credit-card/order" ≡ (has_id u && not_ordered status))
    × (opens_at u status "/credit-card/status" ≡ (has_id u && under_way status))
    × (opens_at u status "/credit-card/active" ≡ (has_id u && delivered status))

opens-CardPages : (u : AuthState) (status : Option OrderStatusResponse) → CardPages u status
unfolding opens shows_all shows loads_all loads pages protected_layout public_layout is_logged_in
    load_with_user same_text nat_eq string_eq
opens-CardPages none status = (refl, refl, refl)
opens-CardPages (some id) status =
    let (order, under, active) = credit_card_layout-shows status in
    elim (Bool-cases (id == "")) [
      | inl empty ↦ rw empty (refl, refl, refl)
      | inr other ↦ rw (other, order, under, active) (and_true _, and_true _, and_true _)
    ]

-- Which pages open, for any order status. The flags and the versions do for everybody, the log-in
-- and the sign-up for who is not logged in, the deposit and the withdrawal for who is. The home page
-- and the instruments need an id that is not empty too, and so do the pages of the card: the order
-- opens if no card is ordered, the active card if it is delivered, and the status for any other
-- order; with an error or without a status none of them opens.
pub router_pages-opens :
    (u : AuthState) (status : Option OrderStatusResponse) → PlainPages u status × CardPages u status
router_pages-opens u status = (opens-PlainPages u status, opens-CardPages u status)

-- Where the layouts and the base navigation lead: the log-in for nobody, and the home page else.
guard_target : AuthState → String
guard_target none = "/login"
guard_target (some _) = "/home"

guards-target :
    (u : AuthState) (target : String)
    → (protected_layout u ≡ redirect target)
      ⊎ ((public_layout u ≡ redirect target) ⊎ (base_navigation_path u ≡ target))
    → guard_target u ≡ target
unfolding guard_target protected_layout public_layout is_logged_in base_navigation_path
guards-target none target (inl e) = ground arith
guards-target none target (inr (inl e)) = absurd (ground arith)
guards-target none target (inr (inr e)) = e
guards-target (some id) target (inl e) = absurd (ground arith)
guards-target (some id) target (inr (inl e)) = ground arith
guards-target (some id) target (inr (inr e)) = e

guard_target-opens :
    (u : AuthState) (status : Option OrderStatusResponse)
    → (opens_at u status (guard_target u) ≡ true) ↔ (u ≢ some "")
unfolding guard_target is_logged_in
guard_target-opens none status = (λ _ e. ground arith, λ _. (opens-PlainPages none status).2.0)
guard_target-opens (some id) status =
    let home = (opens-PlainPages (some id) status).0.0 in
    elim (Bool-cases (id == "")) [
      | inl e ↦
          let empty : id ≡ "" = ground arith in
          (
            λ opened. absurd (ground (arith, home, opened, e)),
            λ other. absurd (other (ap some empty)),
          )
      | inr other ↦ (λ _ e. ground (arith, other), λ _. ground (arith, home, other))
    ]

-- Where a redirect of the two layouts or of the base navigation leads, for any order status, is a
-- page that opens for the user that was led there, with no loader and no layout that leads on,
-- exactly if the stored user id is not the empty text.
pub redirects-opens :
    (u : AuthState) (target : String) (status : Option OrderStatusResponse)
    → (protected_layout u ≡ redirect target)
      ⊎ ((public_layout u ≡ redirect target) ⊎ (base_navigation_path u ≡ target))
    → (opens_at u status target ≡ true) ↔ (u ≢ some "")
redirects-opens u target status led =
    rw (sym (guards-target u target led)) (guard_target-opens u status)
