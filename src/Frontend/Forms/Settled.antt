-- ===== src/Frontend/Forms/Settled.antt =====
-- The abstract specification of a form, and how a form is shown to keep it: what a press of the
-- submit button leads to, said without the schema and the callbacks.
use easytrade.Base.{◌≡◌, ◌≢◌, refl, ◌↔◌, ◌∙◌, inl, inr, Bool, true, Bool-cases, String, Option}
use easytrade.Base.{if◌then◌else◌, none, some, List, ◌++◌, ap}
use easytrade.Base.Result.{Result, ok, err}
use easytrade.Frontend.StatusDisplay.{Status}
use easytrade.Frontend.Forms.{meets, FormState, Form, settle, mutated, FormLibrary, throwing}

-- What a form promises: the values that it accepts, the answer and the effects outside for them,
-- the values and the status that it shows after a success, and the change of the query cache.
pub record Promise (F C P A : Type 0) : Type 1 where
  pub Accepts : F → Type 0
  pub answer : F → Result String A
  pub posts : F → List P
  pub blank : F → F
  pub shown : A → Status
  pub refreshed : C → C

-- From `s`, a press of the button led to `t` as promised: values that are not accepted change
-- nothing at all; an error keeps the values and the cache and is shown; a success blanks the form,
-- refreshes the cache and is shown. Accepted values are sent once.
pub record IsSettled {F C P A : Type 0} (p : Promise F C P A) (s t : FormState F C P) : Type 0 where
  pub rejected : ¬ p.Accepts s.values → t ≡ s
  pub failed :
      (msg : String)
      → p.Accepts s.values
      → p.answer s.values ≡ err msg
      → t ≡ record s {
        status = record { success_msg = ""; error_msg = msg };
        sent = s.sent ++ p.posts s.values;
      }
  pub succeeded :
      (a : A)
      → p.Accepts s.values
      → p.answer s.values ≡ ok a
      → t ≡ record {
        values = p.blank s.values;
        status = p.shown a;
        cache = p.refreshed s.cache;
        sent = s.sent ++ p.posts s.values;
      }

-- What has to be checked of a form for it: its schema, its handler and its callbacks, one by one.
pub record Keeps {F C P A : Type 0} (p : Promise F C P A) (form : Form F C P A) : Type 0 where
  pub same : (d : F) → (meets form.schema d ≡ true) ↔ p.Accepts d
  pub calls : (d : F) → form.mutation_fn (form.schema.coerces d) ≡ (p.answer d, p.posts d)
  pub begins : (s : FormState F C P) → (form.on_mutate s).sent ≡ s.sent
  pub fails :
      (msg : String) (s : FormState F C P) (sent : List P)
      → form.on_error msg (record (form.on_mutate s) { sent = sent })
        ≡ record s { status = record { success_msg = ""; error_msg = msg }; sent = sent }
  pub succeeds :
      (a : A) (s : FormState F C P) (sent : List P)
      → form.on_success a (record (form.on_mutate s) { sent = sent }) ≡ record {
        values = p.blank s.values;
        status = p.shown a;
        cache = p.refreshed s.cache;
        sent = sent;
      }

module _ {F C P A : Type 0} (p : Promise F C P A) (form : Form F C P A) (k : Keeps p form) where
  mutated_failed :
      (s : FormState F C P) (msg : String)
      → p.answer s.values ≡ err msg
      → mutated form (form.schema.coerces s.values) s ≡ record s {
        status = record { success_msg = ""; error_msg = msg };
        sent = s.sent ++ p.posts s.values;
      }
  mutated_failed s msg e =
      ap (λ r. settle form r s) (k.calls s.values ∙ ap (λ r. (r, p.posts s.values)) e)
      ∙ rw (k.begins s, settle) (k.fails msg s (s.sent ++ p.posts s.values))

  mutated_succeeded :
      (s : FormState F C P) (a : A)
      → p.answer s.values ≡ ok a
      → mutated form (form.schema.coerces s.values) s ≡ record {
        values = p.blank s.values;
        status = p.shown a;
        cache = p.refreshed s.cache;
        sent = s.sent ++ p.posts s.values;
      }
  mutated_succeeded s a e =
      ap (λ r. settle form r s) (k.calls s.values ∙ ap (λ r. (r, p.posts s.values)) e)
      ∙ rw (k.begins s, settle) (k.succeeds a s (s.sent ++ p.posts s.values))

  pub submit-IsSettled :
      (lib : FormLibrary F C P A) (s : FormState F C P) → IsSettled p s (lib.submit form s)
  submit-IsSettled lib s = record {
    rejected = λ refused. elim (Bool-cases (meets form.schema s.values)) [
      | inl met ↦ absurd (refused ((k.same s.values).0 met))
      | inr unmet ↦ lib.rejects form s unmet
    ];
    failed = λ msg accepted e.
        lib.accepts form s ((k.same s.values).1 accepted) ∙ mutated_failed s msg e;
    succeeded =
        λ a accepted e. lib.accepts form s ((k.same s.values).1 accepted) ∙ mutated_succeeded s a e;
  }

  -- Nothing but accepted values makes a form send anything.
  pub sent-Accepts :
      (lib : FormLibrary F C P A) (s : FormState F C P)
      → (lib.submit form s).sent ≢ s.sent
      → p.Accepts s.values
  sent-Accepts lib s changed = elim (Bool-cases (meets form.schema s.values)) [
    | inl met ↦ (k.same s.values).0 met
    | inr unmet ↦ absurd (changed (ap (λ t. t.sent) (lib.rejects form s unmet)))
  ]

-- A handler's `error`, as what the promise of the form's function comes to.
abbrev pub answered : Option String → Result String (Unit {0})
answered none = ok tt
answered (some msg) = err msg

pub throwing_lem : {P : Type 0} (h : Option String × List P) → throwing h ≡ (answered h.0, h.1)
throwing_lem (none, effects) = refl
throwing_lem (some msg, effects) = refl

-- The status after a success, where the form's fields are reset after the message was set and
-- `watch` clears it at any notice.
abbrev pub shown_if : Bool → String → Status
shown_if cleared msg = record { success_msg = if cleared then "" else msg; error_msg = "" }
