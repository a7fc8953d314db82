-- ===== src/Frontend/CardOrder/Pages/Laws.antt =====
-- What the credit card section shows, and what a click on its button does.
use easytrade.Base.{◌≡◌, refl, String, true, false, Option, none, some, [], ◌∷◌, ◌++◌}
use easytrade.Base.{inl, inr, Bool-cases, nat_eq, if◌then◌else◌}
use easytrade.Base.Text.{Text, codes, contains, index_of, starts_with}
use easytrade.Base.Result.{ok, err}
use easytrade.Frontend.CardOrder.{
  Thrown, OrderStatusEntry, OrderStatusResponse, OrderStatusHistoryResponse, success, error,
  not_found, credit_card_layout, is_delivered, order_path, active_path, status_path, history_error,
  history_success, revoke_credit_card,
}
use easytrade.Frontend.CardOrder.Pages.{SectionView, throws, credit_card_order, credit_card_active}
use easytrade.Frontend.CardOrder.Pages.{credit_card_status, credit_card_page, credit_card_section}
use easytrade.Frontend.CardOrder.Pages.{
  open_location, follow, delete_card_and_order, CardPage, CardRequest,
}
use easytrade.Frontend.CardOrder.Pages.{after_revoke, click_revoke}
use easytrade.Frontend.Queries.{Key, QueryClient, card_status_key, card_history_key}
use easytrade.Frontend.Queries.{delete_card_invalidate_query}
use easytrade.Frontend.Queries.Laws.{IsClient, is_prefix}
use easytrade.Frontend.StatusDisplay.{status_display}
use easytrade.Base.{string_eq}
use easytrade.Frontend.StatusDisplay.{set_success, set_error, reset_status, is_error, is_success}

-- The locations of the section.
pub data Location : Type 0 where
  root order_location status_location active_location : Location

abbrev pub path_of : Location → Text
path_of root = codes "/credit-card"
path_of order_location = order_path
path_of status_location = status_path
path_of active_location = active_path

-- The page that the status calls for, whatever the location.
abbrev pub page_for : Option OrderStatusResponse → Option OrderStatusHistoryResponse → SectionView
page_for none history = throws "Couldn't get data for credit card order status."
page_for (some (error message)) history = throws message
page_for (some not_found) history = credit_card_order
page_for (some (success entry)) history =
    if is_delivered entry.status then credit_card_active else credit_card_status history

-- The page of the status never redirects.
status-stays :
    (status : Option OrderStatusResponse) (history shown : Option OrderStatusHistoryResponse)
    → follow status history (credit_card_status shown) ≡ credit_card_status shown
unfolding credit_card_status
status-stays status history none = refl
status-stays status history (some (history_error message)) = refl
status-stays status history (some (history_success order_id entries)) = refl

module _ (entry : OrderStatusEntry) (history : Option OrderStatusHistoryResponse) where
  delivered-page :
      (location : Location)
      → is_delivered entry.status ≡ true
      → open_location (some (success entry)) history (path_of location) ≡ credit_card_active
  unfolding open_location credit_card_section credit_card_layout credit_card_page contains index_of
      starts_with nat_eq
  delivered-page root e =
      rw (e, open_location, credit_card_section, credit_card_layout)
        (rw (e, credit_card_section, credit_card_layout) refl)
  delivered-page order_location e =
      rw (e, open_location, credit_card_section, credit_card_layout)
        (rw (e, credit_card_section, credit_card_layout) refl)
  delivered-page status_location e =
      rw (e, open_location, credit_card_section, credit_card_layout)
        (rw (e, credit_card_section, credit_card_layout) refl)
  delivered-page active_location e =
      rw (e, open_location, credit_card_section, credit_card_layout) refl

  open-page :
      (location : Location)
      → is_delivered entry.status ≡ false
      → open_location (some (success entry)) history (path_of location) ≡ credit_card_status history
  unfolding open_location credit_card_section credit_card_layout credit_card_page contains index_of
      starts_with nat_eq
  open-page root e =
      rw (e, open_location, credit_card_section, credit_card_layout)
        (rw (e, credit_card_section, credit_card_layout) refl)
  open-page order_location e =
      rw (e, open_location, credit_card_section, credit_card_layout)
        (rw (e, credit_card_section, credit_card_layout) refl)
  open-page status_location e =
      rw (e, open_location, credit_card_section, credit_card_layout)
        (status-stays (some (success entry)) history history)
  open-page active_location e =
      rw (e, open_location, credit_card_section, credit_card_layout)
        (rw (e, credit_card_section, credit_card_layout) refl)

-- Whichever location of the section is opened, the user sees the page that the status calls for,
-- without a second redirect: the form for an order if there is none, the card once it is delivered,
-- the history before, and the error if there is one.
pub open_location_lem :
    (status : Option OrderStatusResponse) (history : Option OrderStatusHistoryResponse)
    (location : Location)
    → open_location status history (path_of location) ≡ page_for status history
unfolding open_location credit_card_section credit_card_layout credit_card_page contains index_of
    starts_with nat_eq
open_location_lem none history location = refl
open_location_lem (some (error message)) history location = refl
open_location_lem (some not_found) history root = refl
open_location_lem (some not_found) history order_location = refl
open_location_lem (some not_found) history status_location = refl
open_location_lem (some not_found) history active_location = refl
open_location_lem (some (success entry)) history location =
    elim (Bool-cases (is_delivered entry.status)) [
      | inl delivered ↦ rw delivered (delivered-page entry history location delivered)
      | inr open_order ↦ rw open_order (open-page entry history location open_order)
    ]

module _ {C V E : Type 0} (client : QueryClient C V) (laws : IsClient client)
    (number_text : String → Text) where
  open laws use {is_fresh_invalidated, is_fresh_kept}

  -- A click on the button sends one DELETE to the path of the user's order. If the service agrees, the
  -- page says so, the status and the history are to be fetched again and nothing else is; if the
  -- request fails, the page says that and the cache stays as it is.
  pub click_revoke_lem :
      (user_id : String) (page : CardPage C)
      → let request : CardRequest = record {
        method = "DELETE";
        url = codes "orders/" ++ number_text user_id;
      } in
        ((let after = click_revoke client {E = E} number_text user_id (ok tt) page in
          (after.requests ≡ page.requests ++ (request ∷ []))
          × (status_display after.status ≡ ("success", "Card has been successfully revoked.") ∷ [])
          × (client.is_fresh card_status_key after.cache ≡ false)
          × (client.is_fresh card_history_key after.cache ≡ false)
          × ((k : Key)
              → is_prefix card_status_key k ≡ false
              → client.is_fresh k after.cache ≡ client.is_fresh k page.cache)))
        × ((e : Thrown E)
            → let after = click_revoke client number_text user_id (err e) page in
              (after.requests ≡ page.requests ++ (request ∷ []))
              × (status_display after.status
                  ≡ ("error", "There was an error when trying to revoke the card.") ∷ [])
              × (after.cache ≡ page.cache))
  unfolding click_revoke delete_card_and_order after_revoke revoke_credit_card
      delete_card_invalidate_query set_success set_error reset_status status_display is_error
      is_success is_prefix string_eq
  click_revoke_lem user_id page = (
    (
      refl,
      refl,
      is_fresh_invalidated card_status_key card_status_key page.cache refl,
      is_fresh_invalidated card_status_key card_history_key page.cache refl,
      λ k other. is_fresh_kept card_status_key k page.cache other,
    ),
    λ e. (refl, refl, refl),
  )
