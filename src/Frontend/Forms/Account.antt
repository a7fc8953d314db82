-- ===== src/Frontend/Forms/Account.antt =====
-- The forms for the account: SignupForm.tsx, LoginForm.tsx and DefaultLoginForm.tsx of
-- src/frontend/src/components/forms, and components/creditCard/CreditCardForm.tsx with the values
-- that its autofill sets.
pub mod Submit
pub mod Laws
pub mod Sends
use easytrade.Base.{String, ◌<>◌, Bool, true, false, Option, none, some, List, [], ◌∷◌, map, ◌==◌}
use easytrade.Base.{string_eq}
use easytrade.Frontend.StatusDisplay.{set_error}
use easytrade.Frontend.Forms.{Validators, rule, non_empty, Schema, FormState, with_status}
use easytrade.Frontend.Forms.Payment.{UserData}

pub record SignupData : Type 0 where
  pub first_name : String
  pub last_name : String
  pub login : String
  pub email : String
  pub address : String
  pub password : String
  pub repeat_password : String

pub record SignupRequest : Type 0 where
  pub first_name : String
  pub last_name : String
  pub login : String
  pub email : String
  pub address : String
  pub password : String

pub record LoginData : Type 0 where
  pub login : String
  pub password : String

pub record PresetUser : Type 0 where
  pub id : String
  pub first_name : String
  pub last_name : String

-- The id is none for `undefined`, which the form starts from without users.
pub record DefaultLoginData : Type 0 where
  pub user_id : Option String

-- The email is none for `undefined`, as the default values have none.
pub record CreditCardData : Type 0 where
  pub name : String
  pub address : String
  pub email : Option String
  pub type : String
  pub agreement_check : Bool

abbrev pub signup_defaults : SignupData
signup_defaults = record {
  first_name = "";
  last_name = "";
  login = "";
  email = "";
  address = "";
  password = "";
  repeat_password = "";
}

abbrev pub login_defaults : LoginData
login_defaults = record { login = ""; password = "" }

abbrev pub credit_card_defaults : CreditCardData
credit_card_defaults = record {
  name = "";
  address = "";
  email = none;
  type = "";
  agreement_check = false;
}

unfoldable pub default_login_defaults : List PresetUser → DefaultLoginData
default_login_defaults [] = record { user_id = none }
default_login_defaults (u ∷ _) = record { user_id = some u.id }

unfoldable pub signup_schema : Validators → Schema SignupData
signup_schema v = record {
  coerces = λ d. d;
  rules =
      rule "firstName" "First name is required" (λ d. non_empty d.first_name)
      ∷ rule "lastName" "Last name is required" (λ d. non_empty d.last_name)
      ∷ rule "login" "Login is required" (λ d. non_empty d.login)
      ∷ rule "email" "Email is required" (λ d. non_empty d.email)
      ∷ rule "email" "Invalid email" (λ d. v.is_email d.email)
      ∷ rule "address" "Address is required" (λ d. non_empty d.address)
      ∷ rule "password" "Password is required" (λ d. non_empty d.password)
      ∷ rule "repeatPassword" "Password is required" (λ d. non_empty d.repeat_password)
      ∷ rule "repeatPassword" "Passwords have to match" (λ d. d.password == d.repeat_password)
      ∷ [];
}

unfoldable pub login_schema : Schema LoginData
login_schema = record {
  coerces = λ d. d;
  rules =
      rule "login" "Login is required" (λ d. non_empty d.login)
      ∷ rule "password" "Password is required" (λ d. non_empty d.password)
      ∷ [];
}

-- A text that is there and passes the test.
abbrev pub present : Option String → (String → Bool) → Bool
present none test = false
present (some s) test = test s

-- The message for a value that is not a text is the library's.
unfoldable pub default_login_schema : Schema DefaultLoginData
default_login_schema = record {
  coerces = λ d. d;
  rules = rule "userId" "Required" (λ d. present d.user_id (λ _. true)) ∷ [];
}

unfoldable pub credit_card_schema : Validators → Schema CreditCardData
credit_card_schema v = record {
  coerces = λ d. d;
  rules =
      rule "name" "Cardholder name is required." (λ d. non_empty d.name)
      ∷ rule "address" "Cardholder address is required." (λ d. non_empty d.address)
      ∷ rule "email" "Email is required." (λ d. present d.email non_empty)
      ∷ rule "email" "Provide a valid email" (λ d. present d.email v.is_email)
      ∷ rule "type" "Card type is required." (λ d. non_empty d.type)
      ∷ rule "agreementCheck" "Must agree to terms and conditions" (λ d. d.agreement_check)
      ∷ [];
}

-- `({ repeatPassword, ...data }) => data`
abbrev pub signup_request : SignupData → SignupRequest
signup_request d = record {
  first_name = d.first_name;
  last_name = d.last_name;
  login = d.login;
  email = d.email;
  address = d.address;
  password = d.password;
}

unfoldable pub credit_card_autofill :
    {C P : Type 0} → Option UserData → FormState CreditCardData C P → FormState CreditCardData C P
unfolding set_error
credit_card_autofill none s = with_status (set_error "Couldn't get proper data to fill form.") s
credit_card_autofill (some u) s = record s {
  values = record {
    name = u.first_name <> " " <> u.last_name;
    address = u.address;
    email = some u.email;
    type = "silver";
    agreement_check = true;
  };
}

-- The texts of the form for preset users: its options and its button.
unfoldable pub default_login_options : List PresetUser → List (String × String)
default_login_options = map (λ u. (u.id, u.first_name <> " " <> u.last_name))

abbrev first_name_of : List PresetUser → Option String → Option String
first_name_of [] id = none
first_name_of (u ∷ users) none = none
first_name_of (u ∷ users) (some id) =
    let later = first_name_of users (some id) in
    elim (u.id == id) [ true ↦ some u.first_name | false ↦ later ]

unfoldable pub default_login_button : List PresetUser → DefaultLoginData → String
default_login_button users d = elim (first_name_of users d.user_id) [
  | none ↦ "Log in as User"
  | some name ↦ "Log in as " <> name
]
