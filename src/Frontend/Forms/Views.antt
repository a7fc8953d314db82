-- ===== src/Frontend/Forms/Views.antt =====
-- The elements of the forms of src/frontend/src/components: fields with their ids, names, labels
-- and options, and the submit buttons.
pub mod Rendering
pub mod Scripts
use easytrade.Base.{String, ◌<>◌, Bool, true, false, Option, none, some, List, [], ◌∷◌, map}
use easytrade.Frontend.Forms.Account.{PresetUser, DefaultLoginData, default_login_options}
use easytrade.Frontend.Forms.Account.{default_login_button}

pub data FieldKind : Type 0 where
  text password number select checkbox : FieldKind

pub record Field : Type 0 where
  pub kind : FieldKind
  pub id : Option String
  pub name : String
  pub label : String
  pub required : Bool
  pub read_only : Bool
  -- the ids and the labels of a select's options
  pub options : List (String × String)

pub record Button : Type 0 where
  pub id : Option String
  pub label : String
  pub disabled : Bool

pub record FormView : Type 0 where
  pub fields : List Field
  pub submit : Button

-- A field that has to be filled, with its name for an id.
abbrev pub field : FieldKind → String → String → Field
field kind name label = record {
  kind = kind;
  id = some name;
  name = name;
  label = label;
  required = true;
  read_only = false;
  options = [];
}

abbrev pub shut : Field → Field
shut f = record f { read_only = true }

abbrev pub submit_button : String → Button
submit_button label = record { id = some "submitButton"; label = label; disabled = false }

abbrev pub agreement : Field
agreement = record (field checkbox "agreementCheck" "Agree to terms and conditions *") {
  id = some "agreement";
}

abbrev pub total_field : Field
total_field = record (shut (field number "total" "Total price")) { id = none }

abbrev pub card_types : List (String × String)
card_types =
    ("visaDebit", "Visa Debit")
    ∷ ("visaCredit", "Visa Credit")
    ∷ ("mastercard", "Mastercard")
    ∷ ("americanExpress", "American Express")
    ∷ []

abbrev pub card_levels : List (String × String)
card_levels = ("silver", "Silver") ∷ ("gold", "Gold") ∷ ("platinum", "Platinum") ∷ []

unfoldable pub deposit_view : FormView
deposit_view = record {
  fields =
      field number "amount" "Amount"
      ∷ field text "cardholderName" "Cardholder name"
      ∷ field text "address" "Address"
      ∷ field text "email" "Email"
      ∷ field text "cardNumber" "Card number"
      ∷ record (field select "cardType" "Card type") { options = card_types }
      ∷ field text "cvv" "CVV"
      ∷ agreement
      ∷ [];
  submit = submit_button "Deposit";
}

unfoldable pub withdraw_view : FormView
withdraw_view = record {
  fields =
      field number "amount" "Amount"
      ∷ field text "cardholderName" "Cardholder name"
      ∷ field text "address" "Address"
      ∷ field text "email" "Email"
      ∷ field text "cardNumber" "Card number"
      ∷ record (field select "cardType" "Card type") { options = card_types }
      ∷ agreement
      ∷ [];
  submit = submit_button "Withdraw";
}

unfoldable pub credit_card_view : FormView
credit_card_view = record {
  fields =
      field text "name" "Cardholder name"
      ∷ field text "address" "Cardholder address"
      ∷ field text "email" "Email"
      ∷ record (field select "type" "Card type") { options = card_levels }
      ∷ agreement
      ∷ [];
  submit = submit_button "Order card";
}

unfoldable pub quick_buy_view : FormView
quick_buy_view = record {
  fields =
      field number "amount" "Amount"
      ∷ shut (field number "price" "Instrument price")
      ∷ shut (field number "currentBalance" "Current balance")
      ∷ total_field
      ∷ [];
  submit = submit_button "Buy";
}

unfoldable pub quick_sell_view : FormView
quick_sell_view = record {
  fields =
      field number "amount" "Amount"
      ∷ shut (field number "price" "Instrument price")
      ∷ record (shut (field number "possessedAmount" "Possessed amount")) {
        id = some "posessedAmount";
      }
      ∷ total_field
      ∷ [];
  submit = submit_button "Sell";
}

abbrev pub long_fields : List Field
long_fields =
    field number "amount" "Amount"
    ∷ field number "price" "Instrument price"
    ∷ field number "time" "Time [h]"
    ∷ total_field
    ∷ []

unfoldable pub buy_view : FormView
buy_view = record { fields = long_fields; submit = submit_button "Buy" }

unfoldable pub sell_view : FormView
sell_view = record { fields = long_fields; submit = submit_button "Sell" }

-- The fields of the sign-up have no ids.
abbrev pub signup_field : FieldKind → String → String → Field
signup_field kind name label = record (field kind name label) { id = none; required = false }

unfoldable pub signup_view : FormView
signup_view = record {
  fields =
      signup_field text "firstName" "First name"
      ∷ signup_field text "lastName" "Last name"
      ∷ signup_field text "login" "Login"
      ∷ signup_field text "email" "Email"
      ∷ signup_field text "address" "Address"
      ∷ signup_field password "password" "Password"
      ∷ signup_field password "repeatPassword" "Repeat password"
      ∷ [];
  submit = record { id = none; label = "Sign up"; disabled = false };
}

unfoldable pub login_view : FormView
login_view = record {
  fields =
      record (field text "login" "Login") { required = false }
      ∷ record (field password "password" "Password") { required = false }
      ∷ [];
  submit = submit_button "Login";
}

-- `users.length === 0`
abbrev pub no_users : List PresetUser → Bool
no_users [] = true
no_users (u ∷ users) = false

unfoldable pub default_login_view : List PresetUser → DefaultLoginData → FormView
unfolding default_login_options default_login_button
default_login_view users d = record {
  fields =
      record (signup_field select "userId" "User") {
        options = default_login_options users;
        read_only = no_users users;
      }
      ∷ [];
  submit = record { id = none; label = default_login_button users d; disabled = no_users users };
}
