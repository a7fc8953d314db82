-- ===== src/Loadgen/Browser/Ends.antt =====
-- Scripts whose last call is known whenever they return.
use mathlib.Core.List.{append_assoc}
use easytrade.Base.{◌≡◌, ◌∙◌, Bool, true, false, List, [], ◌∷◌, ◌++◌, if◌then◌else◌}
use easytrade.Loadgen.Browser.{Browser, Call, Script, Outcome, returned, thrown, prepend, perform}
use easytrade.Loadgen.Browser.{◌>>=◌, ◌>>◌}
use easytrade.Loadgen.Browser.Returns.{perform-Performs, prepend-returned}

pub record Ends {S H E A : Type 0} (c : Call H) (m : Script S H E A) : Type 0 where
  pub at :
      (s : S) (a : A) (t : S) (cs : List (Call H))
      → m s ≡ returned a t cs
      → (init : List (Call H)) × (cs ≡ init ++ (c ∷ []))

module _ {S H E : Type 0} {c : Call H} where
  pub perform-Ends : (b : Browser S H E) → Ends c (perform b c)
  perform-Ends b = record { at = λ s a t cs e. ([], (perform-Performs b c).at s a t cs e) }

  bind_outcome :
      {A B : Type 0} (o : Outcome S H E A) (f : A → Script S H E B)
      → ((a : A) → Ends c (f a))
      → (b : B) (u : S) (cs : List (Call H))
      → (elim o as (λ _. Outcome S H E B) [
        | returned a t ds ↦ prepend ds (f a t)
        | thrown e ds ↦ thrown e ds
      ])
        ≡ returned b u cs
      → (init : List (Call H)) × (cs ≡ init ++ (c ∷ []))
  bind_outcome (returned a t ds) f k b u cs h =
      let (es, e, both) = prepend-returned ds (f a t) b u cs h in
      let (init, last) = (k a).at t b u es e in (ds ++ init, both ∙ rw (last, append_assoc))
  bind_outcome (thrown e ds) f k b u cs h = cc

  pub bind-Ends :
      {A B : Type 0} (m : Script S H E A) (f : A → Script S H E B)
      → ((a : A) → Ends c (f a))
      → Ends c (m >>= f)
  unfolding ◌>>=◌
  bind-Ends m f k = record { at = λ s. bind_outcome (m s) f k }

  pub seq-Ends :
      {B : Type 0} (m : Script S H E (Unit {0})) (k : Script S H E B) → Ends c k → Ends c (m >> k)
  unfolding ◌>>◌
  seq-Ends m k h = record { at = λ s. bind_outcome (m s) (λ _. k) (λ _. h) }

  pub if-Ends :
      {A : Type 0} (t : Bool) (m k : Script S H E A)
      → Ends c m
      → Ends c k
      → Ends c (if t then m else k)
  if-Ends true m k h i = h
  if-Ends false m k h i = i

pub ruleset ends_rules = (perform-Ends, bind-Ends, seq-Ends, if-Ends)
