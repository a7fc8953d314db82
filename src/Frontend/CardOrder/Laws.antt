-- ===== src/Frontend/CardOrder/Laws.antt =====
-- Which page a user of the credit card pages ends on.
use easytrade.Base.{
  ℕ, ◌≡◌, ◌↔◌, if◌then◌else◌, sym, ◌≢◌, refl, String, Bool, true, false, Option, none, some, arith,
  inl, inr,
}
use easytrade.Base.{Bool-cases, nat_eq, ◌<◌, ◌≤◌, ◌⊎◌}
use easytrade.Base.Text.{Text, codes, contains, index_of, starts_with}
use easytrade.Base.Result.{Result, ok, err}
use easytrade.Frontend.CardOrder.{CardStatusResult, CreditCardResponse, OrderStatusResponse}
use easytrade.Frontend.CardOrder.{success, error, not_found, get_order_status, order_status_mapper}
use easytrade.Frontend.CardOrder.{navigate, outlet, order_path, active_path}
use easytrade.Frontend.CardOrder.{status_path, is_delivered, credit_card_layout, history_entry}
use easytrade.Frontend.CardOrder.{validate_status, get_order_status_xml}

order_path_shown : contains order_path (codes "order") ≡ true
unfolding contains index_of starts_with nat_eq
order_path_shown = refl

active_path_shown : contains active_path (codes "active") ≡ true
unfolding contains index_of starts_with nat_eq
active_path_shown = refl

status_path_shown : contains status_path (codes "status") ≡ true
unfolding contains index_of starts_with nat_eq
status_path_shown = refl

-- A redirect of the layout leads to a page that it shows: for no data and from no path does it
-- redirect twice.
pub credit_card_layout-settles :
    (d : Option OrderStatusResponse) (path target : Text)
    → credit_card_layout d path ≡ navigate target
    → credit_card_layout d target ≡ outlet
unfolding credit_card_layout
credit_card_layout-settles none path target e = absurd (ground arith)
credit_card_layout-settles (some (error m)) path target e = absurd (ground arith)
credit_card_layout-settles (some not_found) path target e =
    elim (Bool-cases (contains path (codes "order"))) [
      | inl shown ↦ absurd (ground arith)
      | inr hidden ↦
          let same : order_path ≡ target = ground arith in rw (sym same, order_path_shown)
    ]
credit_card_layout-settles (some (success entry)) path target e =
    elim (Bool-cases (is_delivered entry.status)) [
      | inl delivered ↦ elim (Bool-cases (contains path (codes "active"))) [
        | inl shown ↦ absurd (ground arith)
        | inr hidden ↦
            let same : active_path ≡ target = ground arith in
            rw (delivered, sym same, active_path_shown)
      ]
      | inr open_order ↦ elim (Bool-cases (contains path (codes "status"))) [
        | inl shown ↦ absurd (ground arith)
        | inr hidden ↦
            let same : status_path ≡ target = ground arith in
            rw (open_order, sym same, status_path_shown)
      ]
    ]

-- The name of the page that the data calls for.
abbrev pub page_of : Option OrderStatusResponse → Option String
page_of none = none
page_of (some (error _)) = none
page_of (some not_found) = some "order"
page_of (some (success entry)) = some (if is_delivered entry.status then "active" else "status")

abbrev pub has_name : Text → Option String → Bool
has_name path none = false
has_name path (some page) = contains path (codes page)

-- The layout shows the page below it exactly if the path has the name of the page that the data
-- calls for: the order form without an order, the active card once it is delivered and the status
-- before; with an error, or without data, it shows none.
credit_card_layout-outlet :
    (d : Option OrderStatusResponse) (path : Text)
    → (credit_card_layout d path ≡ outlet) ↔ (has_name path (page_of d) ≡ true)
unfolding credit_card_layout
credit_card_layout-outlet none path = ground arith
credit_card_layout-outlet (some (error m)) path = ground arith
credit_card_layout-outlet (some not_found) path =
    elim (Bool-cases (contains path (codes "order"))) [
      | inl shown ↦ rw shown (ground arith)
      | inr hidden ↦ rw hidden (ground arith)
    ]
credit_card_layout-outlet (some (success entry)) path =
    elim (Bool-cases (is_delivered entry.status)) [
      | inl delivered ↦ elim (Bool-cases (contains path (codes "active"))) [
        | inl shown ↦ rw (delivered, shown) (ground arith)
        | inr hidden ↦ rw (delivered, hidden) (ground arith)
      ]
      | inr open_order ↦ elim (Bool-cases (contains path (codes "status"))) [
        | inl shown ↦ rw (open_order, shown) (ground arith)
        | inr hidden ↦ rw (open_order, hidden) (ground arith)
      ]
    ]

module _ {E : Type 0} (reject : ℕ → String → E)
    (parse : String → Result E (CreditCardResponse CardStatusResult)) where
  -- `getOrderStatus`, from the reply to its request.
  abbrev pub order_status : Result E (ℕ × String) → OrderStatusResponse
  order_status reply = get_order_status (get_order_status_xml reject parse reply)

  abbrev pub status_failure : OrderStatusResponse
  status_failure = error "There was an error when getting order status."

  -- From the reply to the answer: an order is missing if a reply with a status below 400, or 404,
  -- has the code 404 in its body; it is known, with the fields of the body's result, if the code is
  -- another one; a body without a result, a body that does not parse, any other status and a failed
  -- request all give the error.
  pub order_status_lem :
      (status : ℕ) (text : String)
      → let answer = order_status (ok (status, text)) in
        ((r : CreditCardResponse CardStatusResult)
          → (status < 400) ⊎ (status ≡ 404)
          → parse text ≡ ok r
          → (r.status_code ≡ 404 → answer ≡ not_found)
            × ((c : CardStatusResult)
                → r.status_code ≢ 404
                → r.results ≡ some c
                → answer ≡ success (history_entry c))
            × (r.status_code ≢ 404 → r.results ≡ none → answer ≡ status_failure))
        × ((e : E) → parse text ≡ err e → answer ≡ status_failure)
        × (400 ≤ status → status ≢ 404 → answer ≡ status_failure)
        × ((e : E) → order_status (err e) ≡ status_failure)
  unfolding get_order_status order_status_mapper get_order_status_xml validate_status nat_eq
  order_status_lem status text = (
    λ r valid parsed.
        (λ missing. ground arith, λ c other given. ground arith, λ other empty. ground arith),
    λ e failed. ground arith,
    λ large other. ground arith,
    λ e. refl,
  )
