-- ===== src/Frontend/Forms/Payment/Laws.antt =====
-- What the deposit and the withdraw form promise, and that they keep it.
use easytrade.Base.{◌≡◌, refl, ◌↔◌, ◌≢◌, String, true, arith, string_eq}
use easytrade.Base.{◌∙◌}
use easytrade.Frontend.StatusDisplay.{set_success, set_error, reset_status}
use easytrade.Frontend.Money.{DepositRequest, WithdrawRequest, Effect, Handled, Window, deposit}
use easytrade.Frontend.Money.{withdraw}
use easytrade.Base.Result.{Result}
use easytrade.Frontend.Queries.{QueryClient, balance_key, balance_invalidate_query}
use easytrade.Frontend.Forms.{Numbers, Validators, FormLibrary, FormState, meets, watch_any}
use easytrade.Frontend.Forms.Payment.{
  DepositData, WithdrawData, deposit_defaults, withdraw_defaults,
}
use easytrade.Frontend.Forms.Payment.{cvv_regex, deposit_schema, withdraw_schema}
use easytrade.Frontend.Forms.Payment.{deposit_form, withdraw_form}
use easytrade.Frontend.Forms.Settled.{Promise, Keeps, IsSettled, submit-IsSettled}
use easytrade.Frontend.Forms.Settled.{answered, throwing_lem, shown_if}

module _ {N : Type 0} (numbers : Numbers N) (v : Validators) where
  -- A deposit that the form accepts.
  pub record IsComplete (d : DepositData N) : Type 0 where
    pub numeric : numbers.is_number d.amount ≡ true
    pub positive : numbers.lt (numbers.of_nat 0) d.amount ≡ true
    pub named : d.cardholder_name ≢ ""
    pub addressed : d.address ≢ ""
    pub email : d.email ≢ ""
    pub email_valid : v.is_email d.email ≡ true
    pub numbered : d.card_number ≢ ""
    pub card_valid : v.is_credit_card d.card_number ≡ true
    pub typed : d.card_type ≢ ""
    pub cvv : d.cvv ≢ ""
    pub cvv_valid : cvv_regex d.cvv ≡ true
    pub agreed : d.agreement_check ≡ true

  -- A withdrawal that the form accepts: the same without a CVV.
  pub record IsCompleteWithdraw (d : WithdrawData N) : Type 0 where
    pub numeric : numbers.is_number d.amount ≡ true
    pub positive : numbers.lt (numbers.of_nat 0) d.amount ≡ true
    pub named : d.cardholder_name ≢ ""
    pub addressed : d.address ≢ ""
    pub email : d.email ≢ ""
    pub email_valid : v.is_email d.email ≡ true
    pub numbered : d.card_number ≢ ""
    pub card_valid : v.is_credit_card d.card_number ≡ true
    pub typed : d.card_type ≢ ""
    pub agreed : d.agreement_check ≡ true

  withdraw_same :
      (d : WithdrawData N) → (meets (withdraw_schema numbers v) d ≡ true) ↔ IsCompleteWithdraw d
  unfolding withdraw_schema
  withdraw_same d = (λ h. ground arith, λ h. ground arith)

  deposit_same : (d : DepositData N) → (meets (deposit_schema numbers v) d ≡ true) ↔ IsComplete d
  unfolding deposit_schema
  deposit_same d = (λ h. ground arith, λ h. ground arith)

  -- What a deposit is to send: the form's values for the account, and so for a withdrawal.
  abbrev entered_deposit : N → DepositData N → DepositRequest N
  entered_deposit account_id d = record {
    account_id = account_id;
    amount = d.amount;
    name = d.cardholder_name;
    address = d.address;
    email = d.email;
    card_number = d.card_number;
    card_type = d.card_type;
    cvv = d.cvv;
  }

  abbrev entered_withdraw : N → WithdrawData N → WithdrawRequest N
  entered_withdraw account_id d = record {
    account_id = account_id;
    amount = d.amount;
    name = d.cardholder_name;
    address = d.address;
    email = d.email;
    card_number = d.card_number;
    card_type = d.card_type;
  }

  module _ {C V E : Type 0} (client : QueryClient C V) (account_id : N) where
    module _ (lib : FormLibrary (DepositData N) C (Effect (DepositRequest N) E) (Unit {0}))
        (submit_handler : DepositRequest N → Handled (DepositRequest N) E) where
      -- A complete deposit is handed to the handler as it stands, and the balance is refreshed. The
      -- message of success stays only if the library's reset does not notify.
      abbrev pub deposit_promise :
          Promise (DepositData N) C (Effect (DepositRequest N) E) (Unit {0})
      deposit_promise = record {
        Accepts = IsComplete;
        answer = λ d. answered (submit_handler (entered_deposit account_id d)).0;
        posts = λ d. (submit_handler (entered_deposit account_id d)).1;
        blank = λ _. deposit_defaults numbers;
        shown = λ _. shown_if lib.reset_notifies "Deposit successful";
        refreshed = client.invalidate_queries balance_key;
      }

      deposit-Keeps :
          Keeps deposit_promise (deposit_form numbers client v account_id lib submit_handler)
      unfolding deposit_form balance_invalidate_query set_success set_error reset_status watch_any
      deposit-Keeps = record {
        same = deposit_same;
        calls = λ d. throwing_lem (submit_handler (entered_deposit account_id d));
        begins = λ s. refl;
        fails = λ msg s sent. refl;
        succeeds = λ _ s sent. lib.resets _ _ _ ∙ ground arith;
      }

    module _ (lib : FormLibrary (WithdrawData N) C (Effect (WithdrawRequest N) E) (Unit {0}))
        (submit_handler : WithdrawRequest N → Handled (WithdrawRequest N) E) where
      -- The same for a withdrawal.
      abbrev pub withdraw_promise :
          Promise (WithdrawData N) C (Effect (WithdrawRequest N) E) (Unit {0})
      withdraw_promise = record {
        Accepts = IsCompleteWithdraw;
        answer = λ d. answered (submit_handler (entered_withdraw account_id d)).0;
        posts = λ d. (submit_handler (entered_withdraw account_id d)).1;
        blank = λ _. withdraw_defaults numbers;
        shown = λ _. shown_if lib.reset_notifies "Withdraw successful";
        refreshed = client.invalidate_queries balance_key;
      }

      withdraw-Keeps :
          Keeps withdraw_promise (withdraw_form numbers client v account_id lib submit_handler)
      unfolding withdraw_form balance_invalidate_query set_success set_error reset_status watch_any
      withdraw-Keeps = record {
        same = withdraw_same;
        calls = λ d. throwing_lem (submit_handler (entered_withdraw account_id d));
        begins = λ s. refl;
        fails = λ msg s sent. refl;
        succeeds = λ _ s sent. lib.resets _ _ _ ∙ ground arith;
      }

    -- The deposit and the withdraw page, with their handlers and over any form library: a complete
    -- form is sent once, exactly as entered, and an incomplete one changes nothing. An error is
    -- shown and the values stay; after a success the fields are blank and the balance is refreshed.
    -- The message of success is shown only if the library's reset does not notify the form.
    pub payment_forms-IsSettled :
        (show : N → String) (w_deposit : Window (DepositRequest N) E)
        (send_deposit : String → DepositRequest N → Result E (Unit {0}))
        (w_withdraw : Window (WithdrawRequest N) E)
        (send_withdraw : String → WithdrawRequest N → Result E (Unit {0}))
        (lib_deposit : FormLibrary (DepositData N) C (Effect (DepositRequest N) E) (Unit {0}))
        (lib_withdraw : FormLibrary (WithdrawData N) C (Effect (WithdrawRequest N) E) (Unit {0}))
        (s : FormState (DepositData N) C (Effect (DepositRequest N) E))
        (t : FormState (WithdrawData N) C (Effect (WithdrawRequest N) E))
        → let put = deposit show w_deposit send_deposit in
          let take = withdraw show w_withdraw send_withdraw in
          IsSettled
            (deposit_promise lib_deposit put)
            s
            (lib_deposit.submit (deposit_form numbers client v account_id lib_deposit put) s)
          × IsSettled
              (withdraw_promise lib_withdraw take)
              t
              (lib_withdraw.submit (withdraw_form numbers client v account_id lib_withdraw take) t)
    payment_forms-IsSettled show w_deposit send_deposit w_withdraw send_withdraw lib_deposit
          lib_withdraw s t =
        (
          submit-IsSettled _ _ (deposit-Keeps lib_deposit _) lib_deposit s,
          submit-IsSettled _ _ (withdraw-Keeps lib_withdraw _) lib_withdraw t,
        )
