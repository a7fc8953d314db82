-- ===== src/Frontend/Forms/Account/Laws.antt =====
-- What the forms for the account promise, and that they keep it.
use easytrade.Base.{◌≡◌, refl, ◌↔◌, ◌≢◌, ◌<>◌, inl, inr, true, false, arith}
use easytrade.Base.{String, Option, some, List, [], ◌∷◌, string_eq}
use easytrade.Base.{Option-cases}
use easytrade.Frontend.StatusDisplay.{set_success, set_error, reset_status}
use easytrade.Frontend.Auth.{LoginResponse, Event, logged_in}
use easytrade.Frontend.CardOrder.{CreditCardOrderResponse}
use easytrade.Frontend.Queries.{QueryClient, card_status_key, new_card_order_invalidate_query}
use easytrade.Frontend.Forms.{Validators, FormLibrary, meets}
use easytrade.Frontend.Forms.{watch_change}
use easytrade.Frontend.Forms.Account.{SignupData, SignupRequest, LoginData}
use easytrade.Frontend.Forms.Account.{CreditCardData, signup_defaults}
use easytrade.Frontend.Forms.Account.{credit_card_defaults, signup_schema, login_schema}
use easytrade.Frontend.Forms.Account.{credit_card_schema}
use easytrade.Frontend.Forms.Account.Submit.{CreditCardOrderRequest, signup_form, login_form}
use easytrade.Frontend.Forms.Account.Submit.{ordered}
use easytrade.Frontend.Forms.Account.Submit.{credit_card_form}
use easytrade.Frontend.Forms.Settled.{Promise, Keeps}
use easytrade.Frontend.Forms.Settled.{answered, throwing_lem, shown_if}

-- A sign-up that the form accepts: nothing is left out and the passwords are the same.
pub record IsSignup (v : Validators) (d : SignupData) : Type 0 where
  pub named : (d.first_name ≢ "") × (d.last_name ≢ "")
  pub login : d.login ≢ ""
  pub email : d.email ≢ ""
  pub email_valid : v.is_email d.email ≡ true
  pub addressed : d.address ≢ ""
  pub secret : d.password ≢ ""
  pub repeated : d.repeat_password ≡ d.password

-- An order of a card that the form accepts.
pub record IsOrder (v : Validators) (d : CreditCardData) : Type 0 where
  pub named : d.name ≢ ""
  pub addressed : d.address ≢ ""
  pub email : (s : String) × (d.email ≡ some s) × (s ≢ "") × (v.is_email s ≡ true)
  pub typed : d.type ≢ ""
  pub agreed : d.agreement_check ≡ true

IsSignup-same :
    (v : Validators) (d : SignupData) → (meets (signup_schema v) d ≡ true) ↔ IsSignup v d
unfolding signup_schema
IsSignup-same v d = (λ h. ground arith, λ h. ground arith)

login_same : (d : LoginData) → (meets login_schema d ≡ true) ↔ ((d.login ≢ "") × (d.password ≢ ""))
unfolding login_schema
login_same d = (λ h. ground arith, λ h. ground arith)

IsOrder-same :
    (v : Validators) (d : CreditCardData) → (meets (credit_card_schema v) d ≡ true) ↔ IsOrder v d
unfolding credit_card_schema
IsOrder-same v d = (
  λ h. elim (Option-cases d.email) [
    | inl missing ↦ ground arith
    | inr (s, given) ↦ record {
      named = ground arith;
      addressed = ground arith;
      email = (s, given, ground arith, ground arith);
      typed = ground arith;
      agreed = ground arith;
    }
  ],
  λ h. ground arith,
)

-- What a sign-up is to send: the form's values without the repeated password.
abbrev entered_signup : SignupData → SignupRequest
entered_signup d = record {
  first_name = d.first_name;
  last_name = d.last_name;
  login = d.login;
  email = d.email;
  address = d.address;
  password = d.password;
}

module _ {C P : Type 0} (v : Validators) (lib : FormLibrary SignupData C P (Unit {0}))
    (submit_handler : SignupRequest → Option String × List P) where
  abbrev pub signup_promise : Promise SignupData C P (Unit {0})
  signup_promise = record {
    Accepts = IsSignup v;
    answer = λ d. answered (submit_handler (entered_signup d)).0;
    posts = λ d. (submit_handler (entered_signup d)).1;
    blank = λ _. signup_defaults;
    shown = λ _. shown_if false "User created successfully. You may now login.";
    refreshed = λ c. c;
  }

  pub signup-Keeps : Keeps signup_promise (signup_form v lib submit_handler)
  unfolding signup_form set_success set_error reset_status watch_change
  signup-Keeps = record {
    same = IsSignup-same v;
    calls = λ d. throwing_lem (submit_handler (entered_signup d));
    begins = λ s. refl;
    fails = λ msg s sent. refl;
    succeeds = λ _ s sent. rw (lib.resets _ _ _) (ground arith);
  }

-- What an order is to send: the form's values for the account.
abbrev entered_order : {N : Type 0} → N → CreditCardData → CreditCardOrderRequest N
entered_order account_id d = record {
  account_id = account_id;
  name = d.name;
  email = d.email;
  shipping_address = d.address;
  card_level = d.type;
}

-- The values stay as they are, and there is no message of success.
abbrev pub login_promise :
    {C : Type 0} → (String → String → LoginResponse) → Promise LoginData C Event (Unit {0})
login_promise submit_handler = record {
  Accepts = λ d. (d.login ≢ "") × (d.password ≢ "");
  answer = λ d. answered (submit_handler d.login d.password).error;
  posts = λ d. logged_in (submit_handler d.login d.password) ∷ [];
  blank = λ d. d;
  shown = λ _. shown_if true "";
  refreshed = λ c. c;
}

pub login-Keeps :
    {C : Type 0} (submit_handler : String → String → LoginResponse)
    → Keeps (login_promise {C = C} submit_handler) (login_form submit_handler)
unfolding login_form set_error reset_status
login-Keeps submit_handler = record {
  same = login_same;
  calls = λ d. throwing_lem _;
  begins = λ s. refl;
  fails = λ msg s sent. refl;
  succeeds = λ _ s sent. refl;
}

module _ {C V N : Type 0} (client : QueryClient C V) (v : Validators) (account_id : N)
    (lib : FormLibrary CreditCardData C (CreditCardOrderRequest N) String)
    (order : CreditCardOrderRequest N → CreditCardOrderResponse) where
  abbrev pub credit_card_promise : Promise CreditCardData C (CreditCardOrderRequest N) String
  credit_card_promise = record {
    Accepts = IsOrder v;
    answer = λ d. ordered (order (entered_order account_id d));
    posts = λ d. entered_order account_id d ∷ [];
    blank = λ _. credit_card_defaults;
    shown = λ order_id. shown_if false ("Card orderred successfully. Order ID: " <> order_id);
    refreshed = client.invalidate_queries card_status_key;
  }

  pub credit_card-Keeps : Keeps credit_card_promise (credit_card_form client v account_id lib order)
  unfolding credit_card_form new_card_order_invalidate_query set_success set_error reset_status
  credit_card-Keeps = record {
    same = IsOrder-same v;
    calls = λ d. refl;
    begins = λ s. refl;
    fails = λ msg s sent. refl;
    succeeds = λ order_id s sent. rw (lib.resets _ _ _) (ground arith);
  }
