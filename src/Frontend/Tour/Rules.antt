-- ===== src/Frontend/Tour/Rules.antt =====
-- Scripts whose calls find what they are for, from a page to a page, whatever the browser answers and
-- wherever it throws.
use easytrade.Base.{◌≡◌, refl, ◌∙◌, String, Bool, true, false, not}
use easytrade.Base.{List, [], ◌∷◌, ◌++◌, if◌then◌else◌, string_eq, nat_eq}
use easytrade.Base.Result.{Result, ok, err}
use easytrade.Loadgen.Browser.{
  Browser, Call, Script, Outcome, returned, thrown, prepend, pure, throw, ◌>>=◌, ◌>>◌, perform,
  query, browser_error, input, click, get_handle, click_handle, short_delay, standard_delay,
}
use easytrade.Frontend.Forms.Views.Rendering.{Rendering}
use easytrade.Frontend.Instrument.{tabs}
use easytrade.Frontend.Tour.{
  TourPage, inside, instrument_page, tab_at, next, meets, Follows, arrive, is_some,
}

abbrev pub Toured : {S H E A : Type 0} → Rendering → TourPage → TourPage → Outcome S H E A → Type 0
Toured r p q (returned a t cs) = Follows r p cs × (arrive p cs ≡ q)
Toured r p q (thrown e cs) = Follows r p cs

-- From the page `p`, every call finds what it is for, and a script that returns has led to `q`.
pub record Tours {S H E A : Type 0} (r : Rendering) (p q : TourPage) (m : Script S H E A)
    : Type 0 where
  pub at : (s : S) → Toured r p q (m s)

Follows-append :
    {H : Type 0} (r : Rendering) (p : TourPage) (cs ds : List (Call H))
    → Follows r p cs
    → Follows r (arrive p cs) ds
    → Follows r p (cs ++ ds)
unfolding Follows arrive
Follows-append r p [] ds h k = k
Follows-append r p (c ∷ cs) ds (found, h) k = (found, Follows-append r (next p c) cs ds h k)

arrive-append :
    {H : Type 0} (p : TourPage) (cs ds : List (Call H))
    → arrive p (cs ++ ds) ≡ arrive (arrive p cs) ds
unfolding arrive
arrive-append p [] ds = refl
arrive-append p (c ∷ cs) ds = arrive-append (next p c) cs ds

Toured-prepend :
    {S H E A : Type 0} (r : Rendering) (p q u : TourPage) (cs : List (Call H)) (o : Outcome S H E A)
    → Follows r p cs
    → arrive p cs ≡ q
    → Toured r q u o
    → Toured r p u (prepend cs o)
Toured-prepend r p q u cs (returned a t ds) h e (k, to) =
    (Follows-append r p cs ds h (rw e k), arrive-append p cs ds ∙ rw e to)
Toured-prepend r p q u cs (thrown x ds) h e k = Follows-append r p cs ds h (rw e k)

module _ {S H E : Type 0} {r : Rendering} where
  pub pure-Tours :
      {A : Type 0} (p : TourPage) (a : A) → Tours {S = S} {H = H} {E = E} r p p (pure a)
  unfolding pure Follows arrive
  pure-Tours p a = record { at = λ s. (tt, refl) }

  pub throw-Tours :
      {A : Type 0} (p q : TourPage) (message : String)
      → Tours {S = S} {H = H} {E = E} {A = A} r p q (throw message)
  unfolding throw Follows
  throw-Tours p q message = record { at = λ s. tt }

  bind_outcome :
      {A B : Type 0} (p q u : TourPage) (o : Outcome S H E A) (f : A → Script S H E B)
      → Toured r p q o
      → ((a : A) → Tours r q u (f a))
      → Toured r p u (elim o as (λ _. Outcome S H E B) [
        | returned a t cs ↦ prepend cs (f a t)
        | thrown e cs ↦ thrown e cs
      ])
  bind_outcome p q u (returned a t cs) f (h, e) k =
      Toured-prepend r p q u cs (f a t) h e ((k a).at t)
  bind_outcome p q u (thrown e cs) f h k = h

  pub bind-Tours :
      {A B : Type 0} {p q u : TourPage} (m : Script S H E A) (f : A → Script S H E B)
      → Tours r p q m
      → ((a : A) → Tours r q u (f a))
      → Tours r p u (m >>= f)
  unfolding ◌>>=◌
  bind-Tours {p} {q} {u} m f h k = record { at = λ s. bind_outcome p q u (m s) f (h.at s) k }

  pub seq-Tours :
      {B : Type 0} {p q u : TourPage} (m : Script S H E (Unit {0})) (k : Script S H E B)
      → Tours r p q m
      → Tours r q u k
      → Tours r p u (m >> k)
  unfolding ◌>>◌
  seq-Tours {p} {q} {u} m k h i = record {
    at = λ s. bind_outcome p q u (m s) (λ _. k) (h.at s) (λ _. i);
  }

  pub perform-Tours :
      (p : TourPage) (b : Browser S H E) (c : Call H)
      → meets r p c ≡ true
      → Tours r p (next p c) (perform b c)
  unfolding perform Follows arrive
  perform-Tours p b c found = record { at = λ s. outcome (b.act c s) }
    where
      outcome :
          (reply : Result E S)
          → Toured r p (next p c) (elim reply as (λ _. Outcome S H E (Unit {0})) [
            | ok t ↦ returned tt t (c ∷ [])
            | err x ↦ thrown (browser_error x) (c ∷ [])
          ])
      outcome (ok t) = ((found, tt), refl)
      outcome (err x) = (found, tt)

  pub query-Tours :
      {A : Type 0} (p : TourPage) (c : Call H) (answer : S → Result E (A × S))
      → meets r p c ≡ true
      → Tours r p (next p c) (query c answer)
  unfolding query Follows arrive
  query-Tours {A} p c answer found = record { at = λ s. outcome (answer s) }
    where
      outcome :
          (reply : Result E (A × S))
          → Toured r p (next p c) (elim reply as (λ _. Outcome S H E A) [
            | ok (a, t) ↦ returned a t (c ∷ [])
            | err x ↦ thrown (browser_error x) (c ∷ [])
          ])
      outcome (ok (a, t)) = ((found, tt), refl)
      outcome (err x) = (found, tt)

  pub if-Tours :
      {A : Type 0} {p q : TourPage} (t : Bool) (m k : Script S H E A)
      → Tours r p q m
      → Tours r p q k
      → Tours r p q (if t then m else k)
  if-Tours true m k h i = h
  if-Tours false m k h i = i

-- What is no tab of the page.
abbrev pub tab_free : TourPage → String → Bool
tab_free (inside (instrument_page form_id)) xpath = not (is_some (tab_at tabs xpath))
tab_free _ xpath = true

-- The calls of a script that fills a form, which stays on its page.
abbrev pub stays : {H : Type 0} → TourPage → Call H → Bool
stays p (input sel value) = true
stays p (get_handle sel) = true
stays p (click_handle h) = true
stays p short_delay = true
stays p standard_delay = true
stays p (click sel) = tab_free p sel.xpath
stays p _ = false
