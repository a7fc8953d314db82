-- ===== src/Frontend/Forms/Account/Submit.antt =====
-- What a submitted form of the account does: SignupForm.tsx, LoginForm.tsx and
-- DefaultLoginForm.tsx of src/frontend/src/components/forms, with the handlers that
-- pages/public/Login.tsx gives them, and components/creditCard/CreditCardForm.tsx.
use easytrade.Base.{String, ◌<>◌, Option, none, some, List, [], ◌∷◌}
use easytrade.Base.Result.{Result, ok, err}
use easytrade.Frontend.StatusDisplay.{set_success, set_error, reset_status}
use easytrade.Frontend.Auth.{LoginResponse, Event, logged_in, default_logged_in}
use easytrade.Frontend.CardOrder.{CreditCardOrderResponse, order_success, order_error}
use easytrade.Frontend.Queries.{QueryClient, new_card_order_invalidate_query}
use easytrade.Frontend.Forms.{Validators, Form, FormLibrary, watch_change, throwing}
use easytrade.Frontend.Forms.{with_status, with_cache}
use easytrade.Frontend.Forms.Account.{SignupData, SignupRequest, LoginData, DefaultLoginData}
use easytrade.Frontend.Forms.Account.{CreditCardData, PresetUser, signup_defaults, login_defaults}
use easytrade.Frontend.Forms.Account.{credit_card_defaults, default_login_defaults, signup_schema}
use easytrade.Frontend.Forms.Account.{login_schema, default_login_schema, credit_card_schema}
use easytrade.Frontend.Forms.Account.{signup_request}

pub record CreditCardOrderRequest (N : Type 0) : Type 0 where
  pub account_id : N
  pub name : String
  pub email : Option String
  pub shipping_address : String
  pub card_level : String

unfoldable pub signup_form :
    {C P : Type 0}
    → Validators
    → FormLibrary SignupData C P (Unit {0})
    → (SignupRequest → Option String × List P)
    → Form SignupData C P (Unit {0})
unfolding signup_schema set_success set_error reset_status watch_change
signup_form v lib submit_handler = record {
  defaults = signup_defaults;
  schema = signup_schema v;
  mutation_fn = λ d. throwing (submit_handler (signup_request d));
  on_mutate = with_status reset_status;
  on_success = λ _ s.
      lib.reset signup_defaults watch_change
        (with_status (set_success "User created successfully. You may now login.") s);
  on_error = λ msg. with_status (set_error msg);
}

-- The handler is that of the session's context: each answer is an event of the session.
unfoldable pub login_form :
    {C : Type 0} → (String → String → LoginResponse) → Form LoginData C Event (Unit {0})
unfolding login_schema set_error reset_status
login_form submit_handler = record {
  defaults = login_defaults;
  schema = login_schema;
  mutation_fn = λ d.
      let response = submit_handler d.login d.password in
      throwing (response.error, logged_in response ∷ []);
  on_mutate = with_status reset_status;
  on_success = λ _ s. s;
  on_error = λ msg. with_status (set_error msg);
}

abbrev pub chosen : Option String → List Event
chosen none = []
chosen (some id) = default_logged_in id ∷ []

-- No mutation stands behind this form: its handler is called with the values, and that is all.
unfoldable pub default_login_form :
    {C : Type 0} → List PresetUser → Form DefaultLoginData C Event (Unit {0})
unfolding default_login_schema default_login_defaults
default_login_form users = record {
  defaults = default_login_defaults users;
  schema = default_login_schema;
  mutation_fn = λ d. (ok tt, chosen d.user_id);
  on_mutate = λ s. s;
  on_success = λ _ s. s;
  on_error = λ _ s. s;
}

abbrev pub credit_card_request : {N : Type 0} → N → CreditCardData → CreditCardOrderRequest N
credit_card_request account_id d = record {
  account_id = account_id;
  name = d.name;
  email = d.email;
  shipping_address = d.address;
  card_level = d.type;
}

-- `if (response.type === "error") { throw response.error }`
abbrev pub ordered : CreditCardOrderResponse → Result String String
ordered (order_success order_id) = ok order_id
ordered (order_error msg) = err msg

-- The form has no callback for `watch`.
unfoldable pub credit_card_form :
    {C V N : Type 0}
    → QueryClient C V
    → Validators
    → N
    → FormLibrary CreditCardData C (CreditCardOrderRequest N) String
    → (CreditCardOrderRequest N → CreditCardOrderResponse)
    → Form CreditCardData C (CreditCardOrderRequest N) String
unfolding credit_card_schema set_success set_error reset_status new_card_order_invalidate_query
credit_card_form client v account_id lib order_credit_card = record {
  defaults = credit_card_defaults;
  schema = credit_card_schema v;
  mutation_fn = λ d.
      let request = credit_card_request account_id d in
      (ordered (order_credit_card request), request ∷ []);
  on_mutate = with_status reset_status;
  on_success = λ order_id s. with_cache (new_card_order_invalidate_query client) (
      lib.reset credit_card_defaults (λ _ status. status)
        (with_status (set_success ("Card orderred successfully. Order ID: " <> order_id)) s));
  on_error = λ msg. with_status (set_error msg);
}
