-- ===== src/Loadgen/Visits/Orders.antt =====
-- `OrderCreditCardVisit`: when a card is ordered and when the old one is revoked first.
use easytrade.Base.{◌≡◌, refl, String, Bool, true, false, not, [], ◌∷◌}
use easytrade.Base.{◌==◌, string_eq}
use easytrade.Base.Result.{Result, ok, err}
use easytrade.Loadgen.Browser.{Browser, Call, Script, Outcome, returned, thrown, Selector, query}
use easytrade.Loadgen.Browser.{click, navigate}
use easytrade.Loadgen.Browser.{is_selector_present, ◌>>=◌}
use easytrade.Loadgen.Browser.{calls, prepend, browser_error}
use easytrade.Loadgen.Browser.Within.{
  Within, Passes, within_rules, Passes-prepend, seq-Within, pure-Within,
}
use easytrade.Loadgen.Browser.Returns.{prepend-returned}
use easytrade.Base.{◌++◌, List, ap, ◌∙◌, arith}
use easytrade.Loadgen.Browser.Ends.{seq-Ends, Ends, ends_rules}
use easytrade.Loadgen.User.{User}
use easytrade.Loadgen.Selectors
use easytrade.Loadgen.Helpers.{goto_page_with_nav_bar, order_card, is_present}
use easytrade.Loadgen.Helpers.{show_navbar, toggle_if, goto_credit_card_page}
use easytrade.Loadgen.Helpers.{check_if_card_active, check_if_order_pending}
use easytrade.Loadgen.Visits.{order_credit_card_steps, order_new_card}

-- `false` for the call that orders a card.
pub orders_nothing : {H : Type 0} → Call H → Bool
orders_nothing (click sel) = not (sel.name == "order-card-button")
orders_nothing _ = true

-- `false` for the call that revokes one.
pub revokes_nothing : {H : Type 0} → Call H → Bool
revokes_nothing (navigate sel) = not (sel.name == "revoke-card-button")
revokes_nothing _ = true

-- Every answer that the browser gives to the question is `answer`.
abbrev pub Answers : {S H E : Type 0} → Browser S H E → Selector → Bool → Type 0
Answers {S} b sel answer = (s : S) (a : Bool) (t : S) → b.present sel s ≡ ok (a, t) → a ≡ answer

-- The rest of a script that asks need hold its calls to the test for the known answer only.
ask_outcome :
    {S H E A : Type 0} (p : Call H → Bool) (c : Call H) (answer : Bool) (r : Result E (Bool × S))
    (f : Bool → Script S H E A)
    → ((a : Bool) (t : S) → r ≡ ok (a, t) → a ≡ answer)
    → p c ≡ true
    → Within p (f answer)
    → Passes p (
        calls
          (elim (elim r as (λ _. Outcome S H E Bool) [
            | ok (a, t) ↦ returned a t (c ∷ [])
            | err e ↦ thrown (browser_error e) (c ∷ [])
          ])
            as (λ _. Outcome S H E A) [
              | returned a t cs ↦ prepend cs (f a t)
              | thrown e cs ↦ thrown e cs
            ]))
ask_outcome {A} p c answer (ok (a, t)) f known asks h =
    rw (known a t refl) (Passes-prepend {A = A} p (c ∷ []) (f answer t) (asks, tt) (h.at t))
ask_outcome p c answer (err e) f known asks h = (asks, tt)

module _ {S H E : Type 0} (b : Browser S H E) {p : Call H → Bool} where
  ask-Within :
      {A : Type 0} (sel : Selector) (answer : Bool) (f : Bool → Script S H E A)
      → Answers b sel answer
      → p (is_selector_present sel) ≡ true
      → Within p (f answer)
      → Within p (is_present b sel >>= f)
  unfolding is_present ◌>>=◌ query
  ask-Within sel answer f known asks h = record {
    at = λ s. ask_outcome p (is_selector_present sel) answer (b.present sel s) f (known s) asks h;
  }

-- The same for the last call.
ask_end :
    {S H E A : Type 0} (d c : Call H) (answer : Bool) (r : Result E (Bool × S))
    (f : Bool → Script S H E A)
    → ((a : Bool) (t : S) → r ≡ ok (a, t) → a ≡ answer)
    → Ends c (f answer)
    → (x : A) (u : S) (cs : List (Call H))
    → (elim (elim r as (λ _. Outcome S H E Bool) [
      | ok (a, t) ↦ returned a t (d ∷ [])
      | err e ↦ thrown (browser_error e) (d ∷ [])
    ])
        as (λ _. Outcome S H E A) [
          | returned a t ds ↦ prepend ds (f a t)
          | thrown e ds ↦ thrown e ds
        ])
      ≡ returned x u cs
    → (init : List (Call H)) × (cs ≡ init ++ (c ∷ []))
ask_end d c answer (ok (a, t)) f known ends x u cs h =
    let (es, e, both) = prepend-returned (d ∷ []) (f a t) x u cs h in
    let (init, last) = ends.at t x u es (rw (known a t refl) at e) in
    (d ∷ init, both ∙ ap (◌∷◌ d) last)
ask_end d c answer (err e) f known ends x u cs h = absurd (ground arith)

module _ {S H E : Type 0} (b : Browser S H E) where
  ask-Ends :
      {A : Type 0} {c : Call H} (sel : Selector) (answer : Bool) (f : Bool → Script S H E A)
      → Answers b sel answer
      → Ends c (f answer)
      → Ends c (is_present b sel >>= f)
  unfolding is_present ◌>>=◌ query
  ask-Ends {c = c} sel answer f known ends = record {
    at = λ s. ask_end (is_selector_present sel) c answer (b.present sel s) f (known s) ends;
  }

  credit_card_page-Within :
      Within orders_nothing (goto_credit_card_page b)
      × Within revokes_nothing (goto_credit_card_page b)
  unfolding goto_credit_card_page goto_page_with_nav_bar show_navbar toggle_if is_present
      orders_nothing revokes_nothing string_eq
  credit_card_page-Within = (search within_rules depth 12, search within_rules depth 12)

module _ {S H E : Type 0} (b : Browser S H E) (user : User) (card_type : String) where
  order_card-Within : Within revokes_nothing (order_card b user card_type)
  unfolding order_card revokes_nothing
  order_card-Within = search within_rules depth 30

  order_card-Ends :
      Ends (click Selectors.credit_card_page_order_card_button) (order_card b user card_type)
  unfolding order_card
  order_card-Ends = search ends_rules depth 30

  -- If the page shows a pending order, the visit orders no card and revokes none.
  pub order_pending-steps :
      Answers b Selectors.credit_card_page_order_id_display true
      → Within orders_nothing (order_credit_card_steps b user card_type)
        × Within revokes_nothing (order_credit_card_steps b user card_type)
  unfolding order_credit_card_steps check_if_order_pending orders_nothing revokes_nothing
  order_pending-steps pending = (
    seq-Within _ _ (credit_card_page-Within b).0
        (ask-Within b _ true _ pending refl (pure-Within tt)),
    seq-Within _ _ (credit_card_page-Within b).1
        (ask-Within b _ true _ pending refl (pure-Within tt)),
  )

  -- If it shows neither a pending order nor an active card, the visit revokes no card, and whenever
  -- its steps return, the last call is the one that orders a card.
  pub no_card-steps :
      Answers b Selectors.credit_card_page_order_id_display false
      → Answers b Selectors.credit_card_page_revoke_card false
      → Within revokes_nothing (order_credit_card_steps b user card_type)
        × Ends
            (click Selectors.credit_card_page_order_card_button)
            (order_credit_card_steps b user card_type)
  unfolding order_credit_card_steps order_new_card check_if_order_pending check_if_card_active
      revokes_nothing
  no_card-steps idle inactive = (
    seq-Within _ _ (credit_card_page-Within b).1
        (ask-Within b _ false _ idle refl (ask-Within b _ false _ inactive refl order_card-Within)),
    seq-Ends _ _ (ask-Ends b _ false _ idle (ask-Ends b _ false _ inactive order_card-Ends)),
  )

  -- If it shows an active card and no pending order, the steps that return end with the order, too.
  pub active_card-steps :
      Answers b Selectors.credit_card_page_order_id_display false
      → Answers b Selectors.credit_card_page_revoke_card true
      → Ends
          (click Selectors.credit_card_page_order_card_button)
          (order_credit_card_steps b user card_type)
  unfolding order_credit_card_steps order_new_card check_if_order_pending check_if_card_active
  active_card-steps idle active =
      seq-Ends _ _
        (ask-Ends b _ false _ idle (ask-Ends b _ true _ active (seq-Ends _ _ order_card-Ends)))
