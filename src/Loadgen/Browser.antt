-- ===== src/Loadgen/Browser.antt =====
-- Scripts over `IPageActions` of the package @demoability/loadgen-core, which is a parameter: a
-- browser is any type of states with a function for each method, and each call may throw. A script
-- returns or throws, and either way gives the list of its calls. Logging is not modelled.
pub mod Within
pub mod Ends
pub mod Returns
pub mod Total
use easytrade.Base.{◌≡◌, refl, String, Bool, Option, none, some, List, [], ◌∷◌, ◌++◌, All}
use easytrade.Base.{All-append, true, false, if◌then◌else◌}
use easytrade.Base.Result.{Result, ok, err}

-- `new XpathSelector(name, xpath)`
pub record Selector : Type 0 where
  pub name : String
  pub xpath : String

-- The calls of a script, over the type of element handles.
pub data Call (H : Type 0) : Type 0 where
  setup_page : String → String → String → String → Call H
  goto_page : String → Call H
  input : Selector → String → Call H
  click : Selector → Call H
  navigate : Selector → Call H
  click_handle : H → Call H
  navigate_handle : H → Call H
  short_delay : Call H
  standard_delay : Call H
  is_selector_present : Selector → Call H
  get_handle : Selector → Call H
  get_all_handles : Selector → Call H
  get_property : Selector → String → Call H
  get_inner_text : Selector → Call H
  end_dt_session : Call H

-- What the browser does: `act` for a call without an answer, the rest for those with one.
pub record Browser (S H E : Type 0) : Type 0 where
  pub act : Call H → S → Result E S
  pub present : Selector → S → Result E (Bool × S)
  pub handle : Selector → S → Result E (H × S)
  pub handles : Selector → S → Result E (List H × S)
  pub property : Selector → String → S → Result E (String × S)
  pub inner_text : Selector → S → Result E (String × S)

-- An error of the browser, or one that a script throws itself.
pub data Failure (E : Type 0) : Type 0 where
  browser_error : E → Failure E
  script_error : String → Failure E

pub data Outcome (S H E A : Type 0) : Type 0 where
  returned : A → S → List (Call H) → Outcome S H E A
  thrown : Failure E → List (Call H) → Outcome S H E A

abbrev pub Script : Type 0 → Type 0 → Type 0 → Type 0 → Type 0
Script S H E A = S → Outcome S H E A

abbrev pub calls : {S H E A : Type 0} → Outcome S H E A → List (Call H)
calls (returned a s cs) = cs
calls (thrown e cs) = cs

abbrev pub prepend : {S H E A : Type 0} → List (Call H) → Outcome S H E A → Outcome S H E A
prepend cs (returned a s ds) = returned a s (cs ++ ds)
prepend cs (thrown e ds) = thrown e (cs ++ ds)

module _ {S H E : Type 0} where
  unfoldable pub pure : {A : Type 0} → A → Script S H E A
  pure a s = returned a s []

  unfoldable pub throw : {A : Type 0} → String → Script S H E A
  throw message s = thrown (script_error message) []

  infixl 5 ◌>>=◌ ◌>>◌
  unfoldable pub ◌>>=◌ : {A B : Type 0} → Script S H E A → (A → Script S H E B) → Script S H E B
  ◌>>=◌ m f s = elim (m s) [ returned a t cs ↦ prepend cs (f a t) | thrown e cs ↦ thrown e cs ]

  unfoldable pub ◌>>◌ : {B : Type 0} → Script S H E (Unit {0}) → Script S H E B → Script S H E B
  unfolding ◌>>=◌
  m >> k = m >>= λ _. k

  -- A call without an answer.
  unfoldable pub perform : Browser S H E → Call H → Script S H E (Unit {0})
  perform b c s = elim (b.act c s) [
    | ok t ↦ returned tt t (c ∷ [])
    | err e ↦ thrown (browser_error e) (c ∷ [])
  ]

  -- A call with an answer.
  unfoldable pub query : {A : Type 0} → Call H → (S → Result E (A × S)) → Script S H E A
  query c answer s = elim (answer s) [
    | ok (a, t) ↦ returned a t (c ∷ [])
    | err e ↦ thrown (browser_error e) (c ∷ [])
  ]
