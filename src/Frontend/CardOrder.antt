-- ===== src/Frontend/CardOrder.antt =====
-- Credit card orders: src/frontend/src/api/creditCard/order/index.ts, the requests of
-- api/backend/creditCard.ts behind it and the redirects of layouts/CreditCardLayout.tsx. The HTTP
-- client and the XML parser are parameters.
pub mod Laws
pub mod Pages
pub mod Visit
use easytrade.Base.{ℕ, String, ◌<>◌, Bool, true, false, not, ◌&&◌, ◌||◌, Option, none, some}
use easytrade.Base.{List, map, ltb, ◌==◌, nat_eq, if◌then◌else◌}
use easytrade.Base.Text.{Text, codes, contains}
use easytrade.Base.Result.{Result, ok, err, ◌>>=◌, catch}

pub data OrderStatus : Type 0 where
  order_created card_ordered card_created card_shipped card_delivered : OrderStatus
  card_error sequence_error : OrderStatus

pub record CardStatusResult : Type 0 where
  pub id : ℕ
  pub credit_card_order_id : String
  pub timestamp : String
  pub status : OrderStatus
  pub details : String

pub record CardStatusHistory : Type 0 where
  pub credit_card_order_id : String
  pub status_list : List CardStatusResult

pub record CreditCardResponse (T : Type 0) : Type 0 where
  pub status_code : ℕ
  pub message : String
  pub results : Option T

-- What a `try` block throws: an error of the client or the parser, or one of the code's own.
pub data Thrown (E : Type 0) : Type 0 where
  client_error : E → Thrown E
  own_error : String → Thrown E

pub data CreditCardOrderResponse : Type 0 where
  order_success : String → CreditCardOrderResponse
  order_error : String → CreditCardOrderResponse

pub record OrderStatusEntry : Type 0 where
  pub status : OrderStatus
  pub order_id : String
  pub timestamp : String
  pub details : String

pub data OrderStatusResponse : Type 0 where
  success : OrderStatusEntry → OrderStatusResponse
  error : String → OrderStatusResponse
  not_found : OrderStatusResponse

pub data OrderStatusHistoryResponse : Type 0 where
  history_success : String → List OrderStatusEntry → OrderStatusHistoryResponse
  history_error : String → OrderStatusHistoryResponse

pub data RevokeCardResponse : Type 0 where
  revoke_success : RevokeCardResponse
  revoke_error : String → RevokeCardResponse

-- A required field of a response.
abbrev pub required : {E T : Type 0} → String → Option T → Result (Thrown E) T
required message none = err (own_error message)
required message (some r) = ok r

-- `validateStatus` of the request for the latest status
unfoldable pub validate_status : ℕ → Bool
validate_status status = ltb status 400 || status == 404

-- An entry of the history, without its own id.
abbrev pub history_entry : CardStatusResult → OrderStatusEntry
history_entry entry = record {
  status = entry.status;
  order_id = entry.credit_card_order_id;
  timestamp = entry.timestamp;
  details = entry.details;
}

module _ {E : Type 0} where
  unfoldable pub order_credit_card :
      Result (Thrown E) (CreditCardResponse String) → CreditCardOrderResponse
  order_credit_card reply =
      catch
        (reply >>= λ r. required "Results not included in the response" r.results >>= λ order_id.
          ok (order_success order_id))
        (λ _. order_error "There was an error ordering credit card.")

  -- `getOrderStatusXml`: the client rejects a status that is not valid; the rest is parsed.
  unfoldable pub get_order_status_xml :
      (ℕ → String → E)
      → (String → Result E (CreditCardResponse CardStatusResult))
      → Result E (ℕ × String)
      → Result (Thrown E) (CreditCardResponse CardStatusResult)
  unfolding validate_status
  get_order_status_xml reject parse (err e) = err (client_error e)
  get_order_status_xml reject parse (ok (status, text)) =
      if validate_status status
      then elim (parse text) [ ok r ↦ ok r | err e ↦ err (client_error e) ]
      else err (client_error (reject status text))

  unfoldable pub order_status_mapper :
      CreditCardResponse CardStatusResult → Result (Thrown E) OrderStatusResponse
  order_status_mapper r =
      if r.status_code == 404
      then ok not_found
      else (required "Field [results] not found in response." r.results >>= λ results. ok (
          success (record {
            status = results.status;
            order_id = results.credit_card_order_id;
            timestamp = results.timestamp;
            details = results.details;
          })))

  unfoldable pub get_order_status :
      Result (Thrown E) (CreditCardResponse CardStatusResult) → OrderStatusResponse
  unfolding order_status_mapper
  get_order_status reply =
      catch (reply >>= order_status_mapper)
        (λ _. error "There was an error when getting order status.")

  unfoldable pub get_order_status_history :
      Result (Thrown E) (CreditCardResponse CardStatusHistory) → OrderStatusHistoryResponse
  get_order_status_history reply =
      catch
        (reply >>= λ r. required "Field [results] not found in response." r.results >>= λ results.
          ok (history_success results.credit_card_order_id (map history_entry results.status_list)))
        (λ _. history_error "There was an error when getting order status history.")

  unfoldable pub revoke_credit_card : Result (Thrown E) (Unit {0}) → RevokeCardResponse
  revoke_credit_card reply =
      catch (reply >>= λ _. ok revoke_success)
        (λ _. revoke_error "There was an error when trying to revoke the card.")

-- What the layout renders: an error, a redirect or the page below it.
pub data View : Type 0 where
  failure : String → View
  navigate : Text → View
  outlet : View

abbrev pub order_path : Text
order_path = codes "/credit-card/order"

abbrev pub active_path : Text
active_path = codes "/credit-card/active"

abbrev pub status_path : Text
status_path = codes "/credit-card/status"

abbrev pub is_delivered : OrderStatus → Bool
is_delivered card_delivered = true
is_delivered _ = false

-- `CreditCardLayout`, for the loaded data and the path
unfoldable pub credit_card_layout : Option OrderStatusResponse → Text → View
credit_card_layout none path = failure "Couldn't get data for credit card order status."
credit_card_layout (some (error message)) path = failure message
credit_card_layout (some not_found) path =
    if not (contains path (codes "order")) then navigate order_path else outlet
credit_card_layout (some (success entry)) path =
    if is_delivered entry.status && not (contains path (codes "active"))
    then navigate active_path
    else if not (is_delivered entry.status) && not (contains path (codes "status"))
    then navigate status_path
    else outlet
