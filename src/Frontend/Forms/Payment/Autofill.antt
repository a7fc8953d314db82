-- ===== src/Frontend/Forms/Payment/Autofill.antt =====
-- The deposit form against the withdraw form, and what their autofill buttons lead to.
use Prim.Native.String.{count}
use text.Mathlib.TextLemmas.{length-append}
use easytrade.Base.{ap, sym, ◌+◌, ◌∙◌}
use easytrade.Base.{◌≡◌, refl, ◌≢◌, ◌<>◌, ◌⊎◌, String, true, false, arith, ◌==◌}
use easytrade.Base.{string_eq, nat_eq, ◌&&◌, Option, some, none}
use easytrade.Frontend.Forms.{Numbers, Validators, meets, non_empty}
use easytrade.Frontend.Forms.Payment.{
  UserData, DepositData, WithdrawData, cvv_regex, deposit_schema,
}
use easytrade.Frontend.Forms.Payment.{withdraw_schema, deposit_autofill, withdraw_autofill}
use easytrade.Frontend.Forms.Payment.{full_name, address_or_default, email_or_default}
use easytrade.Frontend.Forms.Payment.Laws.{IsComplete}

-- A deposit, as a withdrawal of the same amount by the same card.
abbrev pub without_cvv : {N : Type 0} → DepositData N → WithdrawData N
without_cvv d = record {
  amount = d.amount;
  cardholder_name = d.cardholder_name;
  address = d.address;
  email = d.email;
  card_number = d.card_number;
  card_type = d.card_type;
  agreement_check = d.agreement_check;
}

cvv_non_empty : (s : String) → cvv_regex s ≡ (non_empty s && cvv_regex s)
unfolding cvv_regex string_eq nat_eq
cvv_non_empty s = elim (string_eq.dec s "") [ yes blank ↦ rw blank refl | no filled ↦ ground arith ]

filled : (s : String) → (s == "") ≡ false → s ≢ ""
filled s differs = λ blank. ground arith

name_non_empty : (user : Option UserData) → full_name user ≢ ""
unfolding string_eq
name_non_empty none e = filled "undefined undefined" refl e
name_non_empty (some u) e =
    let whole : count u.first_name + count (" " <> u.last_name) ≡ 0 =
      sym (length-append u.first_name (" " <> u.last_name)) ∙ ap count e in
    let rest : count (" " <> u.last_name) ≡ 1 + count u.last_name = length-append " " u.last_name in
    omega (arith, whole, rest)

cvv_123 : cvv_regex "123" ≡ true
unfolding cvv_regex nat_eq
cvv_123 = refl

module _ {N : Type 0} (numbers : Numbers N) (v : Validators) where
  -- The deposit form is the withdraw form with a CVV: it accepts the values that the withdraw form
  -- accepts and whose CVV has three or four digits, and its autofill fills the shared fields alike.
  pub deposit_schema-withdraw_schema :
      (user : Option UserData) (d : DepositData N)
      → (meets (deposit_schema numbers v) d
          ≡ (meets (withdraw_schema numbers v) (without_cvv d) && cvv_regex d.cvv))
        × (without_cvv (deposit_autofill numbers user d)
            ≡ withdraw_autofill numbers user (without_cvv d))
  unfolding deposit_schema withdraw_schema deposit_autofill withdraw_autofill
  deposit_schema-withdraw_schema user d = (ground (arith, cvv_non_empty d.cvv), refl)

  -- With a user who has an email that the library accepts and an address, or without a user, the
  -- autofilled deposit is complete, if the library accepts the form's own card number and email and
  -- 1000 is positive: the amount is kept if it was not the initial one, so it has to be positive.
  deposit_autofill-IsComplete :
      (user : Option UserData) (d : DepositData N)
      → v.is_credit_card "2293562484488276" ≡ true
      → v.is_email (email_or_default user) ≡ true
      → v.is_email "" ≡ false
      → address_or_default user ≢ ""
      → numbers.is_number (numbers.of_nat 1000) ≡ true
      → numbers.lt (numbers.of_nat 0) (numbers.of_nat 1000) ≡ true
      → ((numbers.same d.amount (numbers.of_nat 0) ≡ true)
          ⊎ ((numbers.is_number d.amount ≡ true) × (numbers.lt (numbers.of_nat 0) d.amount ≡ true)))
      → IsComplete numbers v (deposit_autofill numbers user d)
  unfolding deposit_autofill string_eq
  deposit_autofill-IsComplete user d card email blank address numeric positive amount = record {
    numeric = ground arith;
    positive = ground arith;
    named = name_non_empty user;
    addressed = address;
    email = λ missing. ground arith;
    email_valid = email;
    numbered = filled "2293562484488276" refl;
    card_valid = card;
    typed = filled "visaDebit" refl;
    cvv = filled "123" refl;
    cvv_valid = cvv_123;
    agreed = refl;
  }
