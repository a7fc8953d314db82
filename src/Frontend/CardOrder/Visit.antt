-- ===== src/Frontend/CardOrder/Visit.antt =====
-- The credit card visit of the load generator (src/loadgen/src/visits/orderCreditCard.ts) on the
-- credit card pages of the frontend: what it asks the page, and what it does then.
use easytrade.Base.{String, Bool, false, ◌||◌, Option, none, some, List, [], ◌∷◌, ◌==◌}
use easytrade.Base.{string_eq, Bool-cases, inl, inr, if◌then◌else◌}
use easytrade.Loadgen.Browser.{Browser, Script, Selector, click}
use easytrade.Loadgen.Browser.Within.{Within}
use easytrade.Loadgen.Browser.Ends.{Ends}
use easytrade.Loadgen.Selectors
use easytrade.Loadgen.User.{User}
use easytrade.Loadgen.Visits.{order_credit_card_steps}
use easytrade.Loadgen.Visits.Orders.{
  Answers, orders_nothing, revokes_nothing, order_pending-steps, no_card-steps, active_card-steps,
}
use easytrade.Frontend.Forms.Views.{credit_card_view}
use easytrade.Frontend.Forms.Views.Rendering.{by_id}
use easytrade.Frontend.CardOrder.{OrderStatusResponse, OrderStatusHistoryResponse, success, error}
use easytrade.Frontend.CardOrder.{not_found, history_success, history_error, is_delivered}
use easytrade.Frontend.CardOrder.Pages.{
  IdElement, SectionView, throws, redirects, shows, open_location, credit_card_order,
  credit_card_active, credit_card_status,
}
use easytrade.Frontend.CardOrder.Pages.Laws.{Location, path_of, page_for, open_location_lem}

-- Whether a selector for a tag and an id finds one of the elements.
abbrev pub finds : List IdElement → Selector → Bool
finds [] sel = false
finds ((tag, id) ∷ elements) sel = by_id tag id == sel.xpath || finds elements sel

abbrev pub finds_on : SectionView → Selector → Bool
finds_on (throws message) sel = false
finds_on (redirects target) sel = false
finds_on (shows elements) sel = finds elements sel

-- The browser answers the two questions of the visit by the page that a location shows.
abbrev pub IsOn : {S H E : Type 0} → Browser S H E → SectionView → Type 0
IsOn b page =
    Answers b Selectors.credit_card_page_order_id_display
      (finds_on page Selectors.credit_card_page_order_id_display)
    × Answers b Selectors.credit_card_page_revoke_card
        (finds_on page Selectors.credit_card_page_revoke_card)

module _ {S H E : Type 0} (b : Browser S H E) (user : User) (card_type : String) where
  abbrev steps : Script S H E (Unit {0})
  steps = order_credit_card_steps b user card_type

  -- The steps order no card and revoke none.
  abbrev pub IsIdle : Type 0
  IsIdle = Within orders_nothing steps × Within revokes_nothing steps

  -- Whenever the steps return, the last call is the one that orders a card.
  abbrev pub EndsWithOrder : Type 0
  EndsWithOrder = Ends (click Selectors.credit_card_page_order_card_button) steps

  -- What the status of the order calls for; where an error is shown, no page stops the visit.
  abbrev pub Fits : Option OrderStatusResponse → Option OrderStatusHistoryResponse → Type 0
  Fits none history = Within revokes_nothing steps × EndsWithOrder
  Fits (some (error message)) history = Within revokes_nothing steps × EndsWithOrder
  Fits (some not_found) history = Within revokes_nothing steps × EndsWithOrder
  Fits (some (success entry)) (some (history_success order_id entries)) =
      if is_delivered entry.status then EndsWithOrder else IsIdle
  Fits (some (success entry)) _ =
      if is_delivered entry.status
      then EndsWithOrder
      else Within revokes_nothing steps × EndsWithOrder

  -- On the page that the frontend shows, whichever location of the section is opened, the visit does
  -- what the order's status calls for: without an order it revokes no card, and if its steps return,
  -- they end with an order; for a card that is delivered they end with an order, too; while an order
  -- is open and its history is known, it orders no card and revokes none.
  pub steps-Fits :
      (status : Option OrderStatusResponse) (history : Option OrderStatusHistoryResponse)
      (location : Location)
      → IsOn b (open_location status history (path_of location))
      → Fits status history
  unfolding credit_card_order credit_card_active credit_card_status credit_card_view string_eq
  steps-Fits status history location on =
      fits status history (rw (open_location_lem status history location) at on)
    where
      fits :
          (status : Option OrderStatusResponse) (history : Option OrderStatusHistoryResponse)
          → IsOn b (page_for status history)
          → Fits status history
      fits none history (id, card) = no_card-steps b user card_type id card
      fits (some (error message)) history (id, card) = no_card-steps b user card_type id card
      fits (some not_found) history (id, card) = no_card-steps b user card_type id card
      fits (some (success entry)) none on = elim (Bool-cases (is_delivered entry.status)) [
        | inl e ↦ let (id, card) = rw e at on in rw e (active_card-steps b user card_type id card)
        | inr e ↦ let (id, card) = rw e at on in rw e (no_card-steps b user card_type id card)
      ]
      fits (some (success entry)) (some (history_error message)) on =
          elim (Bool-cases (is_delivered entry.status)) [
            | inl e ↦
                let (id, card) = rw e at on in rw e (active_card-steps b user card_type id card)
            | inr e ↦ let (id, card) = rw e at on in rw e (no_card-steps b user card_type id card)
          ]
      fits (some (success entry)) (some (history_success order_id entries)) on =
          elim (Bool-cases (is_delivered entry.status)) [
            | inl e ↦
                let (id, card) = rw e at on in rw e (active_card-steps b user card_type id card)
            | inr e ↦ let (id, card) = rw e at on in rw e (order_pending-steps b user card_type id)
          ]
