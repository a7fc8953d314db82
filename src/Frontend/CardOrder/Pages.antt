-- ===== src/Frontend/CardOrder/Pages.antt =====
-- The pages of the credit card: src/frontend/src/pages/protected/creditCard inside
-- layouts/CreditCardLayout.tsx, with the request of api/backend/creditCard.ts that revokes a card. Of
-- a page there are the elements with an id, by their tags; the rest of the markup is left out.
pub mod Laws
use easytrade.Base.{String, ◌<>◌, Bool, Option, none, some, List, [], ◌∷◌, ◌++◌, if◌then◌else◌}
use easytrade.Base.Text.{Text, codes, same_text}
use easytrade.Base.Result.{Result, ok, err}
use easytrade.Frontend.CardOrder.{
  Thrown, OrderStatusResponse, OrderStatusHistoryResponse, history_success, history_error,
  RevokeCardResponse, revoke_success, revoke_error, revoke_credit_card, failure, navigate, outlet,
  order_path, active_path, status_path, credit_card_layout,
}
use easytrade.Frontend.Forms.Views.{
  FieldKind, text, number, password, checkbox, select, Field, FormView, credit_card_view,
}
use easytrade.Frontend.Queries.{QueryClient, delete_card_invalidate_query}
use easytrade.Frontend.StatusDisplay.{Status, set_success, set_error, reset_status}

-- An element's tag and id.
abbrev pub IdElement : Type 0
IdElement = String × String

-- What a location shows: an error, a redirect, or elements.
pub data SectionView : Type 0 where
  throws : String → SectionView
  redirects : Text → SectionView
  shows : List IdElement → SectionView

abbrev tag_of : FieldKind → String
tag_of text = "input"
tag_of number = "input"
tag_of password = "input"
tag_of checkbox = "input"
tag_of select = "div"

abbrev with_id : String → Option String → List IdElement
with_id tag none = []
with_id tag (some id) = (tag, id) ∷ []

abbrev field_elements : List Field → List IdElement
field_elements [] = []
field_elements (f ∷ fs) = with_id (tag_of f.kind) f.id ++ field_elements fs

abbrev pub form_elements : FormView → List IdElement
form_elements view = field_elements view.fields ++ with_id "button" view.submit.id

-- `CreditCardOrder`
unfoldable pub credit_card_order : SectionView
unfolding credit_card_view
credit_card_order = shows (form_elements credit_card_view)

-- `CreditCardActive`
unfoldable pub credit_card_active : SectionView
credit_card_active = shows (("button", "revoke-card") ∷ [])

-- `CreditCardStatus`, for the history's data
unfoldable pub credit_card_status : Option OrderStatusHistoryResponse → SectionView
credit_card_status none = throws "There was an error getting order history [Response was empty]"
credit_card_status (some (history_error message)) =
    throws ("There was an error getting order history [" <> message <> "]")
credit_card_status (some (history_success order_id entries)) = shows (("p", "order-id") ∷ [])

-- The page inside the layout, by the routes of the section; its own location has none.
unfoldable pub credit_card_page : Option OrderStatusHistoryResponse → Text → SectionView
unfolding credit_card_order credit_card_active credit_card_status
credit_card_page history path =
    if same_text path order_path
    then credit_card_order
    else if same_text path status_path
    then credit_card_status history
    else if same_text path active_path
    then credit_card_active
    else shows []

module _ (status : Option OrderStatusResponse) (history : Option OrderStatusHistoryResponse) where
  -- A location of the section, for the two queries' data.
  unfoldable pub credit_card_section : Text → SectionView
  unfolding credit_card_layout credit_card_page
  credit_card_section path = elim (credit_card_layout status path) [
    | failure message ↦ throws message
    | navigate target ↦ redirects target
    | outlet ↦ credit_card_page history path
  ]

  abbrev pub follow : SectionView → SectionView
  follow (throws message) = throws message
  follow (redirects target) = credit_card_section target
  follow (shows elements) = shows elements

  -- What a user sees who opens a location: a redirect is followed, and there is no second one.
  unfoldable pub open_location : Text → SectionView
  unfolding credit_card_section
  open_location path = follow (credit_card_section path)

-- A request that the client sends.
pub record CardRequest : Type 0 where
  pub method : String
  pub url : Text

-- `deleteCardAndOrder`, for the account's number as it is printed
unfoldable pub delete_card_and_order : Text → CardRequest
delete_card_and_order account_id = record { method = "DELETE"; url = codes "orders/" ++ account_id }

-- The page of an active card: its message, the cache and the requests that were sent.
pub record CardPage (C : Type 0) : Type 0 where
  pub status : Status
  pub cache : C
  pub requests : List CardRequest

module _ {C V : Type 0} (client : QueryClient C V) where
  -- The mutation's callbacks for the answer of `revokeCreditCard`, after `onMutate`.
  unfoldable pub after_revoke : RevokeCardResponse → CardPage C → CardPage C
  unfolding delete_card_invalidate_query set_success set_error
  after_revoke revoke_success page = record page {
    cache = delete_card_invalidate_query client page.cache;
    status = set_success "Card has been successfully revoked." page.status;
  }
  after_revoke (revoke_error error) page = record page { status = set_error error page.status }

  -- A click on the button, for the reply to its request.
  unfoldable pub click_revoke :
      {E : Type 0}
      → (String → Text)
      → String
      → Result (Thrown E) (Unit {0})
      → CardPage C
      → CardPage C
  unfolding after_revoke revoke_credit_card reset_status delete_card_and_order
  click_revoke number_text user_id reply page =
      after_revoke (revoke_credit_card reply) (record page {
        status = reset_status page.status;
        requests = page.requests ++ (delete_card_and_order (number_text user_id) ∷ []);
      })
