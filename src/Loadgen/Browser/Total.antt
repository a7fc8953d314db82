-- ===== src/Loadgen/Browser/Total.antt =====
-- Scripts that return from every state, over a browser that rejects no call.
use easytrade.Base.{◌≡◌, refl, Bool, true, false, List, [], ◌∷◌, ◌++◌, if◌then◌else◌}
use easytrade.Base.Result.{ok}
use easytrade.Loadgen.Browser.{Browser, Call, Script, Selector, returned, pure, ◌>>=◌, ◌>>◌}
use easytrade.Loadgen.Browser.{perform, query}

pub record Total {S H E A : Type 0} (m : Script S H E A) : Type 0 where
  pub at : (s : S) → (a : A) × (t : S) × (cs : List (Call H)) × (m s ≡ returned a t cs)

-- Calls without an answer, tests for a selector and the search for an element all succeed.
pub record IsWorking {S H E : Type 0} (b : Browser S H E) : Type 0 where
  pub acts : (c : Call H) (s : S) → (t : S) × (b.act c s ≡ ok t)
  pub presents : (sel : Selector) (s : S) → (r : Bool × S) × (b.present sel s ≡ ok r)
  pub handles : (sel : Selector) (s : S) → (r : H × S) × (b.handle sel s ≡ ok r)

-- Scripts that return from every state, with a value that meets `P`.
pub record Gives {S H E A : Type 0} (P : A → Type 0) (m : Script S H E A) : Type 0 where
  pub at : (s : S) → (a : A) × (t : S) × (cs : List (Call H)) × (m s ≡ returned a t cs) × P a

module _ {S H E : Type 0} where
  pub bind-Gives :
      {A B : Type 0} {P : A → Type 0} {Q : B → Type 0} (m : Script S H E A) (f : A → Script S H E B)
      → Gives P m
      → ((a : A) → P a → Gives Q (f a))
      → Gives Q (m >>= f)
  unfolding ◌>>=◌
  bind-Gives m f h k = record {
    at = λ s.
        let (a, t, cs, e, p) = h.at s in
        let (c, u, ds, i, q) = (k a p).at t in (c, u, cs ++ ds, rw (e, i, ◌>>=◌) refl, q);
  }

  pub pure-Gives :
      {A : Type 0} {P : A → Type 0} (a : A) → P a → Gives {S = S} {H = H} {E = E} P (pure a)
  unfolding pure
  pure-Gives a p = record { at = λ s. (a, s, [], refl, p) }

  pub Total-Gives : {A : Type 0} (m : Script S H E A) → Total m → Gives (λ (_ : A). Unit {0}) m
  Total-Gives m h = record { at = λ s. let (a, t, cs, e) = h.at s in (a, t, cs, e, tt) }

  pub Gives-Total : {A : Type 0} {P : A → Type 0} (m : Script S H E A) → Gives P m → Total m
  Gives-Total m h = record { at = λ s. let (a, t, cs, e, p) = h.at s in (a, t, cs, e) }

module _ {S H E : Type 0} where
  pub pure-Total : {A : Type 0} (a : A) → Total {S = S} {H = H} {E = E} (pure a)
  unfolding pure
  pure-Total a = record { at = λ s. (a, s, [], refl) }

  pub bind-Total :
      {A B : Type 0} (m : Script S H E A) (f : A → Script S H E B)
      → Total m
      → ((a : A) → Total (f a))
      → Total (m >>= f)
  unfolding ◌>>=◌
  bind-Total m f h k = record {
    at = λ s.
        let (a, t, cs, e) = h.at s in
        let (c, u, ds, i) = (k a).at t in (c, u, cs ++ ds, rw (e, i, ◌>>=◌) refl);
  }

  pub seq-Total :
      {B : Type 0} (m : Script S H E (Unit {0})) (k : Script S H E B)
      → Total m
      → Total k
      → Total (m >> k)
  unfolding ◌>>◌
  seq-Total m k h i = bind-Total m (λ _. k) h (λ _. i)

  pub if-Total :
      {A : Type 0} (t : Bool) (m k : Script S H E A)
      → Total m
      → Total k
      → Total (if t then m else k)
  if-Total true m k h i = h
  if-Total false m k h i = i

  pub perform-Total : (b : Browser S H E) (c : Call H) → IsWorking b → Total (perform b c)
  unfolding perform
  perform-Total b c works = record {
    at = λ s. let (t, e) = works.acts c s in (tt, t, c ∷ [], rw (e, perform) refl);
  }

  pub present-Total :
      (b : Browser S H E) (c : Call H) (sel : Selector)
      → IsWorking b
      → Total (query c (b.present sel))
  unfolding query
  present-Total b c sel works = record {
    at = λ s. let (r, e) = works.presents sel s in (r.0, r.1, c ∷ [], rw (e, query) refl);
  }

  pub handle-Total :
      (b : Browser S H E) (c : Call H) (sel : Selector)
      → IsWorking b
      → Total (query c (b.handle sel))
  unfolding query
  handle-Total b c sel works = record {
    at = λ s. let (r, e) = works.handles sel s in (r.0, r.1, c ∷ [], rw (e, query) refl);
  }

pub ruleset total_rules =
    (pure-Total, bind-Total, seq-Total, if-Total, perform-Total, present-Total, handle-Total)
