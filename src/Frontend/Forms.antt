-- ===== src/Frontend/Forms.antt =====
-- What the forms of src/frontend/src/components have in common. A form hands its default values,
-- its schema, its handler and its callbacks to the packages react-hook-form, zod and
-- @tanstack/react-query, which are a parameter: any implementation with the documented behaviour
-- that `FormLibrary` states.
pub mod Payment
pub mod Trade
pub mod Account
pub mod Settled
pub mod Views
use easytrade.Base.{ℕ, ◌≡◌, String, Bool, true, false, not, ◌&&◌, Option, none, some, List, []}
use easytrade.Base.{◌∷◌, ◌++◌, ◌==◌, string_eq, if◌then◌else◌}
use easytrade.Base.Result.{Result, ok, err}
use easytrade.Frontend.StatusDisplay.{Status, set_success, set_error, reset_status}

-- The numbers of the forms, with `undefined` among them, and the operations that the forms use.
pub record Numbers (N : Type 0) : Type 0 where
  pub of_nat : ℕ → N
  pub is_undefined : N → Bool
  -- a number that is neither `undefined` nor `NaN`
  pub is_number : N → Bool
  pub same : N → N → Bool
  pub lt : N → N → Bool
  pub le : N → N → Bool
  pub add : N → N → N
  pub mul : N → N → N
  pub div : N → N → N
  pub floor : N → N
  pub ceil : N → N
  -- `Number(v)`, and `z.coerce`
  pub coerce : N → N

-- The tests of the packages zod and validator.
pub record Validators : Type 0 where
  pub is_email : String → Bool
  pub is_credit_card : String → Bool

-- One check of a schema: the field that it is about, its message and its test.
pub record Rule (F : Type 0) : Type 0 where
  pub path : String
  pub message : String
  pub holds : F → Bool

abbrev pub rule : {F : Type 0} → String → String → (F → Bool) → Rule F
rule path message holds = record { path = path; message = message; holds = holds }

abbrev pub non_empty : String → Bool
non_empty s = not (s == "")

-- A schema: how it coerces the values, and its checks of the coerced values.
pub record Schema (F : Type 0) : Type 0 where
  pub coerces : F → F
  pub rules : List (Rule F)

abbrev pub all_hold : {F : Type 0} → List (Rule F) → F → Bool
all_hold [] d = true
all_hold (r ∷ rules) d = r.holds d && all_hold rules d

-- The values meet the schema.
abbrev pub meets : {F : Type 0} → Schema F → F → Bool
meets schema d = all_hold schema.rules (schema.coerces d)

-- What a form keeps and reaches: its values, its status message, the query cache and what its
-- handler has done outside.
pub record FormState (F C P : Type 0) : Type 0 where
  pub values : F
  pub status : Status
  pub cache : C
  pub sent : List P

-- What a form hands over. An answer of `mutation_fn` is what the promise resolves to or throws.
pub record Form (F C P A : Type 0) : Type 0 where
  pub defaults : F
  pub schema : Schema F
  pub mutation_fn : F → Result String A × List P
  pub on_mutate : FormState F C P → FormState F C P
  pub on_success : A → FormState F C P → FormState F C P
  pub on_error : String → FormState F C P → FormState F C P

-- The life of a mutation, as documented: `onMutate`, the function, and one of the two callbacks.
abbrev pub settle :
    {F C P A : Type 0} → Form F C P A → Result String A × List P → FormState F C P → FormState F C P
settle form (ok a, effects) s =
    let begun = form.on_mutate s in
    form.on_success a (record begun { sent = begun.sent ++ effects })
settle form (err msg, effects) s =
    let begun = form.on_mutate s in
    form.on_error msg (record begun { sent = begun.sent ++ effects })

abbrev pub mutated : {F C P A : Type 0} → Form F C P A → F → FormState F C P → FormState F C P
mutated form d s = settle form (form.mutation_fn d) s

-- The packages: `submit` is a press of the submit button; `reset` sets the default values and may
-- tell the callback given to `watch`, with a type other than "change".
pub record FormLibrary (F C P A : Type 0) : Type 0 where
  pub submit : Form F C P A → FormState F C P → FormState F C P
  pub reset : F → (Bool → Status → Status) → FormState F C P → FormState F C P
  pub reset_notifies : Bool
  pub rejects :
      (form : Form F C P A) (s : FormState F C P)
      → meets form.schema s.values ≡ false
      → submit form s ≡ s
  pub accepts :
      (form : Form F C P A) (s : FormState F C P)
      → meets form.schema s.values ≡ true
      → submit form s ≡ mutated form (form.schema.coerces s.values) s
  pub resets :
      (d : F) (on_watch : Bool → Status → Status) (s : FormState F C P)
      → reset d on_watch s ≡ record s {
        values = d;
        status = if reset_notifies then on_watch false s.status else s.status;
      }

-- The two callbacks of `watch`, for whether the type is "change".
unfoldable pub watch_any : Bool → Status → Status
unfolding reset_status
watch_any is_change s = reset_status s

unfoldable pub watch_change : Bool → Status → Status
unfolding reset_status
watch_change is_change s = if is_change then reset_status s else s

-- `if (error !== undefined) { throw error }`
abbrev pub throwing : {P : Type 0} → Option String × List P → Result String (Unit {0}) × List P
throwing (none, effects) = (ok tt, effects)
throwing (some msg, effects) = (err msg, effects)

module _ {F C P : Type 0} where
  abbrev pub with_status : (Status → Status) → FormState F C P → FormState F C P
  with_status f s = record s { status = f s.status }

  abbrev pub with_cache : (C → C) → FormState F C P → FormState F C P
  with_cache f s = record s { cache = f s.cache }
