-- ===== src/Examples/FormRuns.antt =====
-- The forms (src/frontend/src/components) over a library that behaves as documented, on concrete
-- values.
use easytrade.Base.{ℕ, ◌+◌, ◌*◌, ◌/◌, ◌≡◌, refl, ◌≢◌, String, true, false, not, ◌&&◌}
use easytrade.Base.{none, List, [], ◌∷◌, ◌==◌, string_eq, nat_eq, ltb, leb, arith}
use easytrade.Base.{if◌then◌else◌}
use easytrade.Base.Result.{Result, ok}
use easytrade.Frontend.StatusDisplay.{initial_status}
use easytrade.Frontend.Money.{Window, post}
use easytrade.Frontend.Money.{deposit}
use easytrade.Frontend.Queries.{QueryClient, balance_key, Key}
use easytrade.Frontend.Forms.{Numbers, Validators, FormState, FormLibrary, meets}
use easytrade.Frontend.Forms.{mutated}
use easytrade.Frontend.Forms.Payment.{DepositData, deposit_form, deposit_schema}
use easytrade.Frontend.Forms.Payment.{withdraw_schema, deposit_autofill, withdraw_autofill}
use easytrade.Frontend.Forms.Payment.{
  deposit_defaults, withdraw_defaults, deposit_request, cvv_regex,
}
use easytrade.Frontend.Forms.Payment.Laws.{IsComplete, payment_forms-IsSettled}
use easytrade.Frontend.Forms.Payment.Autofill.{without_cvv, deposit_schema-withdraw_schema}

-- The packages, with a reset that notifies the form.
abbrev pub library : {F C P A : Type 0} → FormLibrary F C P A
library = record {
  submit = λ form s.
      if meets form.schema s.values then mutated form (form.schema.coerces s.values) s else s;
  reset = λ d on_watch s. record s { values = d; status = on_watch false s.status };
  reset_notifies = true;
  rejects = λ form s unmet. rw unmet refl;
  accepts = λ form s met. rw met refl;
  resets = λ d on_watch s. refl;
}

-- Natural numbers, none of which is undefined.
abbrev pub naturals : Numbers ℕ
naturals = record {
  of_nat = λ n. n;
  is_undefined = λ n. false;
  is_number = λ n. true;
  same = λ m n. m == n;
  lt = ltb;
  le = leb;
  add = ◌+◌;
  mul = ◌*◌;
  div = ◌/◌;
  floor = λ n. n;
  ceil = λ n. n;
  coerce = λ n. n;
}

abbrev pub validators : Validators
validators = record { is_email = λ s. not (s == ""); is_credit_card = λ s. s == "2293562484488276" }

-- The keys that were invalidated, for a cache.
abbrev pub client : QueryClient (List Key) (Unit {0})
client = record {
  get = λ key c. none;
  is_fresh = λ key c. false;
  remove_queries = λ key c. c;
  invalidate_queries = λ key c. key ∷ c;
}

abbrev pub no_agent : {R : Type 0} → Window R String
no_agent = record { dynatrace = none; dtrum = false }

abbrev pub posted : {R : Type 0} → String → R → Result String (Unit {0})
posted endpoint r = ok tt

abbrev autofilled : DepositData ℕ
autofilled = record {
  amount = 1000;
  cardholder_name = "Ann Lee";
  address = "Main Street 1";
  email = "ann@example.com";
  card_number = "2293562484488276";
  card_type = "visaDebit";
  cvv = "123";
  agreement_check = true;
}

pub differs : (s : String) → (s == "") ≡ false → s ≢ ""
differs s h e = ground arith

autofilled-IsComplete : IsComplete naturals validators autofilled
unfolding string_eq cvv_regex nat_eq
autofilled-IsComplete = record {
  numeric = refl;
  positive = refl;
  named = differs "Ann Lee" refl;
  addressed = differs "Main Street 1" refl;
  email = differs "ann@example.com" refl;
  email_valid = refl;
  numbered = differs "2293562484488276" refl;
  card_valid = refl;
  typed = differs "visaDebit" refl;
  cvv = differs "123" refl;
  cvv_valid = refl;
  agreed = refl;
}

abbrev pub at : {F P : Type 0} → F → FormState F (List Key) P
at d = record { values = d; status = initial_status; cache = []; sent = [] }

-- The deposit is sent and the balance refreshed, and no message is left.
payment_forms-IsSettled_example :
    library.submit
      (deposit_form naturals client validators 1 library (deposit (λ _. "1") no_agent posted))
      (at autofilled)
    ≡ record {
      values = deposit_defaults naturals;
      status = initial_status;
      cache = balance_key ∷ [];
      sent = post "/balance/1/deposit" (deposit_request naturals 1 autofilled) ∷ [];
    }
unfolding deposit
payment_forms-IsSettled_example =
    (payment_forms-IsSettled naturals validators client 1 (λ _. "1") no_agent posted no_agent posted
        library library (at autofilled) (at (withdraw_defaults naturals))).0.succeeded
      tt autofilled-IsComplete refl

deposit_schema-withdraw_schema_example :
    (meets (deposit_schema naturals validators) autofilled
      ≡ (meets (withdraw_schema naturals validators) (without_cvv autofilled) && cvv_regex "123"))
    × (without_cvv (deposit_autofill naturals none autofilled)
        ≡ withdraw_autofill naturals none (without_cvv autofilled))
deposit_schema-withdraw_schema_example =
    deposit_schema-withdraw_schema naturals validators none autofilled
