-- ===== src/Frontend/Forms/Payment.antt =====
-- The deposit and the withdraw form: src/frontend/src/components/forms/DepositForm.tsx and
-- WithdrawForm.tsx.
pub mod Laws
pub mod Autofill
use easytrade.Base.{ℕ, suc, String, ◌<>◌, Bool, true, false, ◌&&◌, ◌||◌, Option, none, some}
use easytrade.Base.{[], ◌∷◌, ◌==◌, nat_eq, leb, if◌then◌else◌}
use easytrade.Base.Text.{Text, codes}
use easytrade.Frontend.StatusDisplay.{set_success, set_error, reset_status}
use easytrade.Frontend.Money.{DepositRequest, WithdrawRequest, Effect, Handled}
use easytrade.Frontend.Queries.{QueryClient, balance_invalidate_query}
use easytrade.Frontend.Forms.{Numbers, Validators, rule, non_empty, Schema, Form}
use easytrade.Frontend.Forms.{FormLibrary, watch_any, throwing, with_status, with_cache}

pub record DepositData (N : Type 0) : Type 0 where
  pub amount : N
  pub cardholder_name : String
  pub address : String
  pub email : String
  pub card_number : String
  pub card_type : String
  pub cvv : String
  pub agreement_check : Bool

pub record WithdrawData (N : Type 0) : Type 0 where
  pub amount : N
  pub cardholder_name : String
  pub address : String
  pub email : String
  pub card_number : String
  pub card_type : String
  pub agreement_check : Bool

-- The fields of the user that the autofill reads.
pub record UserData : Type 0 where
  pub first_name : String
  pub last_name : String
  pub email : String
  pub address : String

abbrev all_digits : Text → Bool
all_digits [] = true
all_digits (c ∷ s) = leb b'0' c && leb c b'9' && all_digits s

abbrev count : Text → ℕ
count [] = 0
count (c ∷ s) = suc (count s)

-- `/^[0-9]{3,4}$/`
unfoldable pub cvv_regex : String → Bool
cvv_regex s = all_digits (codes s) && (count (codes s) == 3 || count (codes s) == 4)

-- `user?.firstName + " " + user?.lastName`
abbrev pub full_name : Option UserData → String
full_name none = "undefined" <> " " <> "undefined"
full_name (some u) = u.first_name <> " " <> u.last_name

abbrev pub address_or_default : Option UserData → String
address_or_default none = "Kochweg 4 01510 Kronach"
address_or_default (some u) = u.address

abbrev pub email_or_default : Option UserData → String
email_or_default none = "mockemail@mail.com"
email_or_default (some u) = u.email

module _ {N : Type 0} (numbers : Numbers N) where
  abbrev pub deposit_defaults : DepositData N
  deposit_defaults = record {
    amount = numbers.of_nat 0;
    cardholder_name = "";
    address = "";
    email = "";
    card_number = "";
    card_type = "";
    cvv = "";
    agreement_check = false;
  }

  abbrev pub withdraw_defaults : WithdrawData N
  withdraw_defaults = record {
    amount = numbers.of_nat 0;
    cardholder_name = "";
    address = "";
    email = "";
    card_number = "";
    card_type = "";
    agreement_check = false;
  }

  unfoldable pub deposit_schema : Validators → Schema (DepositData N)
  unfolding cvv_regex
  deposit_schema v = record {
    coerces = λ d. d;
    rules =
        rule "amount" "Amount is required" (λ d. numbers.is_number d.amount)
        ∷ rule "amount" "Amount must be greater than 0"
            (λ d. numbers.lt (numbers.of_nat 0) d.amount)
        ∷ rule "cardholderName" "Cardholder name is required" (λ d. non_empty d.cardholder_name)
        ∷ rule "address" "Address is required" (λ d. non_empty d.address)
        ∷ rule "email" "Email is required" (λ d. non_empty d.email)
        ∷ rule "email" "Invalid email" (λ d. v.is_email d.email)
        ∷ rule "cardNumber" "Card number is required" (λ d. non_empty d.card_number)
        ∷ rule "cardNumber" "Invalid credit card number" (λ d. v.is_credit_card d.card_number)
        ∷ rule "cardType" "Must set card type" (λ d. non_empty d.card_type)
        ∷ rule "cvv" "CVV is required" (λ d. non_empty d.cvv)
        ∷ rule "cvv" "Invalid CVV" (λ d. cvv_regex d.cvv)
        ∷ rule "agreementCheck" "Must agree to terms and conditions" (λ d. d.agreement_check)
        ∷ [];
  }

  unfoldable pub withdraw_schema : Validators → Schema (WithdrawData N)
  withdraw_schema v = record {
    coerces = λ d. d;
    rules =
        rule "amount" "Amount is required" (λ d. numbers.is_number d.amount)
        ∷ rule "amount" "Amount must be greater than 0"
            (λ d. numbers.lt (numbers.of_nat 0) d.amount)
        ∷ rule "cardholderName" "Cardholder name is required" (λ d. non_empty d.cardholder_name)
        ∷ rule "address" "Address is required" (λ d. non_empty d.address)
        ∷ rule "email" "Email is required" (λ d. non_empty d.email)
        ∷ rule "email" "Invalid email" (λ d. v.is_email d.email)
        ∷ rule "cardNumber" "Card number is required" (λ d. non_empty d.card_number)
        ∷ rule "cardNumber" "Invalid credit card number" (λ d. v.is_credit_card d.card_number)
        ∷ rule "cardType" "Must set card type" (λ d. non_empty d.card_type)
        ∷ rule "agreementCheck" "Must agree to terms and conditions" (λ d. d.agreement_check)
        ∷ [];
  }

  unfoldable pub deposit_autofill : Option UserData → DepositData N → DepositData N
  deposit_autofill user d = record {
    amount = if numbers.same d.amount (numbers.of_nat 0) then numbers.of_nat 1000 else d.amount;
    cardholder_name = full_name user;
    address = address_or_default user;
    email = email_or_default user;
    card_number = "2293562484488276";
    card_type = "visaDebit";
    cvv = "123";
    agreement_check = true;
  }

  unfoldable pub withdraw_autofill : Option UserData → WithdrawData N → WithdrawData N
  withdraw_autofill user d = record {
    amount = if numbers.same d.amount (numbers.of_nat 0) then numbers.of_nat 1000 else d.amount;
    cardholder_name = full_name user;
    address = address_or_default user;
    email = email_or_default user;
    card_number = "2293562484488276";
    card_type = "visaDebit";
    agreement_check = true;
  }

  -- The request of a submitted form, for `Number(userId)`.
  abbrev pub deposit_request : N → DepositData N → DepositRequest N
  deposit_request account_id d = record {
    account_id = account_id;
    amount = d.amount;
    name = d.cardholder_name;
    address = d.address;
    email = d.email;
    card_number = d.card_number;
    card_type = d.card_type;
    cvv = d.cvv;
  }

  abbrev pub withdraw_request : N → WithdrawData N → WithdrawRequest N
  withdraw_request account_id d = record {
    account_id = account_id;
    amount = d.amount;
    name = d.cardholder_name;
    address = d.address;
    email = d.email;
    card_number = d.card_number;
    card_type = d.card_type;
  }

  module _ {C V E : Type 0} (client : QueryClient C V) (v : Validators) (account_id : N) where
    unfoldable pub deposit_form :
        FormLibrary (DepositData N) C (Effect (DepositRequest N) E) (Unit {0})
        → (DepositRequest N → Handled (DepositRequest N) E)
        → Form (DepositData N) C (Effect (DepositRequest N) E) (Unit {0})
    unfolding deposit_schema set_success set_error reset_status balance_invalidate_query watch_any
    deposit_form lib submit_handler = record {
      defaults = deposit_defaults;
      schema = deposit_schema v;
      mutation_fn = λ d. throwing (submit_handler (deposit_request account_id d));
      on_mutate = with_status reset_status;
      on_success = λ _ s. lib.reset deposit_defaults watch_any (
          with_cache (balance_invalidate_query client)
            (with_status (set_success "Deposit successful") s));
      on_error = λ msg. with_status (set_error msg);
    }

    unfoldable pub withdraw_form :
        FormLibrary (WithdrawData N) C (Effect (WithdrawRequest N) E) (Unit {0})
        → (WithdrawRequest N → Handled (WithdrawRequest N) E)
        → Form (WithdrawData N) C (Effect (WithdrawRequest N) E) (Unit {0})
    unfolding withdraw_schema set_success set_error reset_status balance_invalidate_query watch_any
    withdraw_form lib submit_handler = record {
      defaults = withdraw_defaults;
      schema = withdraw_schema v;
      mutation_fn = λ d. throwing (submit_handler (withdraw_request account_id d));
      on_mutate = with_status reset_status;
      on_success = λ _ s. lib.reset withdraw_defaults watch_any (
          with_cache (balance_invalidate_query client)
            (with_status (set_success "Withdraw successful") s));
      on_error = λ msg. with_status (set_error msg);
    }
