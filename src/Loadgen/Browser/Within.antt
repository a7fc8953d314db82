-- ===== src/Loadgen/Browser/Within.antt =====
-- Scripts all of whose calls meet a test, whatever the browser answers and wherever it throws.
use easytrade.Base.{◌≡◌, String, Bool, true, false, List, [], ◌∷◌}
use easytrade.Base.{All, All-append, if◌then◌else◌}
use easytrade.Base.Result.{Result, ok, err}
use easytrade.Loadgen.Browser.{Browser, Call, Script, Outcome, returned, thrown, calls, prepend}
use easytrade.Loadgen.Browser.{pure, throw, ◌>>=◌, ◌>>◌, perform, query, browser_error}

abbrev pub Passes : {H : Type 0} → (Call H → Bool) → List (Call H) → Type 0
Passes p = All λ c. p c ≡ true

pub record Within {S H E A : Type 0} (p : Call H → Bool) (m : Script S H E A) : Type 0 where
  pub at : (s : S) → Passes p (calls (m s))

pub Passes-prepend :
    {S H E A : Type 0} (p : Call H → Bool) (cs : List (Call H)) (o : Outcome S H E A)
    → Passes p cs
    → Passes p (calls o)
    → Passes p (calls (prepend cs o))
Passes-prepend p cs (returned a s ds) k h = All-append _ cs ds k h
Passes-prepend p cs (thrown e ds) k h = All-append _ cs ds k h

module _ {S H E : Type 0} {p : Call H → Bool} where
  pub pure-Within : {A : Type 0} (a : A) → Within {S = S} {E = E} p (pure a)
  unfolding pure
  pure-Within a = record { at = λ s. tt }

  pub throw-Within :
      {A : Type 0} (message : String) → Within {S = S} {E = E} {A = A} p (throw message)
  unfolding throw
  throw-Within message = record { at = λ s. tt }

  bind_outcome :
      {A B : Type 0} (o : Outcome S H E A) (f : A → Script S H E B)
      → Passes p (calls o)
      → ((a : A) → Within p (f a))
      → Passes p (
          calls (elim o as (λ _. Outcome S H E B) [
            | returned a t cs ↦ prepend cs (f a t)
            | thrown e cs ↦ thrown e cs
          ]))
  bind_outcome (returned a t cs) f h k = Passes-prepend p cs (f a t) h ((k a).at t)
  bind_outcome (thrown e cs) f h k = h

  pub bind-Within :
      {A B : Type 0} (m : Script S H E A) (f : A → Script S H E B)
      → Within p m
      → ((a : A) → Within p (f a))
      → Within p (m >>= f)
  unfolding ◌>>=◌
  bind-Within m f h k = record { at = λ s. bind_outcome (m s) f (h.at s) k }

  pub seq-Within :
      {B : Type 0} (m : Script S H E (Unit {0})) (k : Script S H E B)
      → Within p m
      → Within p k
      → Within p (m >> k)
  unfolding ◌>>◌
  seq-Within m k h i = record { at = λ s. bind_outcome (m s) (λ _. k) (h.at s) (λ _. i) }

  pub perform-Within : (b : Browser S H E) (c : Call H) → p c ≡ true → Within p (perform b c)
  unfolding perform
  perform-Within b c e = record { at = λ s. outcome (b.act c s) }
    where
      outcome :
          (r : Result E S)
          → Passes p (
              calls (elim r as (λ _. Outcome S H E (Unit {0})) [
                | ok t ↦ returned tt t (c ∷ [])
                | err x ↦ thrown (browser_error x) (c ∷ [])
              ]))
      outcome (ok t) = (e, tt)
      outcome (err x) = (e, tt)

  pub query-Within :
      {A : Type 0} (c : Call H) (answer : S → Result E (A × S))
      → p c ≡ true
      → Within p (query c answer)
  unfolding query
  query-Within {A} c answer e = record { at = λ s. outcome (answer s) }
    where
      outcome :
          (r : Result E (A × S))
          → Passes p (
              calls (elim r as (λ _. Outcome S H E A) [
                | ok (a, t) ↦ returned a t (c ∷ [])
                | err x ↦ thrown (browser_error x) (c ∷ [])
              ]))
      outcome (ok (a, t)) = (e, tt)
      outcome (err x) = (e, tt)

  pub if-Within :
      {A : Type 0} (t : Bool) (m k : Script S H E A)
      → Within p m
      → Within p k
      → Within p (if t then m else k)
  if-Within true m k h i = h
  if-Within false m k h i = i

pub ruleset within_rules =
    (pure-Within, throw-Within, bind-Within, seq-Within, perform-Within, query-Within, if-Within)
