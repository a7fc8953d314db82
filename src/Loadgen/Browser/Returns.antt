-- ===== src/Loadgen/Browser/Returns.antt =====
-- Scripts that return: how their calls split, and straight-line scripts, which make the same calls
-- whenever they return.
use easytrade.Base.{◌≡◌, refl, ◌∙◌, List, [], ◌∷◌, ◌++◌}
use easytrade.Base.Result.{Result, ok, err}
use easytrade.Loadgen.Browser.{Browser, Call, Script, Outcome, returned, thrown, prepend}
use easytrade.Loadgen.Browser.{◌>>◌, perform, browser_error}

module _ {S H E : Type 0} where
  pub prepend-returned :
      {A : Type 0} (ds : List (Call H)) (o : Outcome S H E A) (a : A) (t : S) (cs : List (Call H))
      → prepend ds o ≡ returned a t cs
      → (es : List (Call H)) × (o ≡ returned a t es) × (cs ≡ ds ++ es)
  prepend-returned ds (returned b u es) a t cs e = (es, cc, cc)
  prepend-returned ds (thrown x es) a t cs e = cc

  -- A block that returns is two parts that return, and its calls are theirs.
  pub seq_returned :
      {B : Type 0} (m : Script S H E (Unit {0})) (k : Script S H E B) (s : S) (b : B) (u : S)
      (cs : List (Call H))
      → (m >> k) s ≡ returned b u cs
      → (t : S) × (ds : List (Call H)) × (es : List (Call H)) × (m s ≡ returned tt t ds)
        × (k t ≡ returned b u es)
        × (cs ≡ ds ++ es)
  unfolding ◌>>◌
  seq_returned {B} m k s b u cs = split (m s)
    where
      split :
          (o : Outcome S H E (Unit {0}))
          → (elim o as (λ _. Outcome S H E B) [
            | returned a t ds ↦ prepend ds (k t)
            | thrown e ds ↦ thrown e ds
          ])
            ≡ returned b u cs
          → (t : S) × (ds : List (Call H)) × (es : List (Call H)) × (o ≡ returned tt t ds)
            × (k t ≡ returned b u es)
            × (cs ≡ ds ++ es)
      split (returned a t ds) h =
          let (es, e, f) = prepend-returned ds (k t) b u cs h in (t, ds, es, refl, e, f)
      split (thrown e ds) h = cc

-- Whenever the script returns, it has made just these calls.
pub record Performs {S H E A : Type 0} (m : Script S H E A) (cs : List (Call H)) : Type 0 where
  pub at : (s : S) (a : A) (t : S) (ds : List (Call H)) → m s ≡ returned a t ds → ds ≡ cs

module _ {S H E : Type 0} where
  pub perform-Performs : (b : Browser S H E) (c : Call H) → Performs (perform b c) (c ∷ [])
  unfolding perform
  perform-Performs b c = record { at = λ s a t ds h. outcome (b.act c s) a t ds h }
    where
      outcome :
          (r : Result E S) (a : Unit {0}) (t : S) (ds : List (Call H))
          → (elim r as (λ _. Outcome S H E (Unit {0})) [
            | ok u ↦ returned tt u (c ∷ [])
            | err x ↦ thrown (browser_error x) (c ∷ [])
          ])
            ≡ returned a t ds
          → ds ≡ c ∷ []
      outcome (ok u) a t ds h = cc
      outcome (err x) a t ds h = cc

  pub then-Performs :
      {B : Type 0} (b : Browser S H E) (c : Call H) (k : Script S H E B) (ys : List (Call H))
      → Performs k ys
      → Performs (perform b c >> k) (c ∷ ys)
  then-Performs b c k ys i = record {
    at = λ s a t cs e.
        let (u, ds, es, first, rest, both) = seq_returned (perform b c) k s a t cs e in
        both ∙ rw ((perform-Performs b c).at s tt u ds first, i.at u a t es rest);
  }
