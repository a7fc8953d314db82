-- ===== src/Frontend/Auth/Laws.antt =====
-- Who is logged in, and where the guards lead.
use mathlib.Core.List.{foldl}
use easytrade.Base.{
  ◌≡◌, refl, ap, ◌∙◌, ◌≢◌, ◌↔◌, String, Bool, true, false, none, some, List, [], ◌∷◌,
}
use easytrade.Base.{◌++◌, string_eq, arith, All}
use easytrade.Frontend.Auth.{AuthState, Event, logged_in, logged_out, default_logged_in, step}
use easytrade.Frontend.Auth.{session, is_logged_in, redirect, proceed, protected_layout}
use easytrade.Frontend.Auth.{public_layout, load_with_user}

-- `true` for an answer without the field that changes the session: a failed login or logout.
abbrev pub is_failure : Event → Bool
is_failure (logged_in r) = elim r.id [ none ↦ true | some _ ↦ false ]
is_failure (logged_out r) = elim r.message [ none ↦ true | some _ ↦ false ]
is_failure (default_logged_in _) = false

-- Whom an event that is no failure leaves logged in.
abbrev pub leaves : Event → AuthState
leaves (logged_in r) = r.id
leaves (logged_out r) = none
leaves (default_logged_in id) = some id

step-failure : (u : AuthState) (e : Event) → is_failure e ≡ true → step u e ≡ u
unfolding step
step-failure u (logged_in r) h = ground arith
step-failure u (logged_out r) h = ground arith
step-failure u (default_logged_in id) h = ground arith

step-leaves : (u : AuthState) (e : Event) → is_failure e ≡ false → step u e ≡ leaves e
unfolding step
step-leaves u (logged_in r) h = ground arith
step-leaves u (logged_out r) h = ground arith
step-leaves u (default_logged_in id) h = refl

session-failures :
    (u : AuthState) (es : List Event) → All (λ e. is_failure e ≡ true) es → foldl step u es ≡ u
session-failures u [] _ = refl
session-failures u (e ∷ es) (h, hs) = rw (step-failure u e h) (session-failures u es hs)

-- After any events, one that is no failure and any failures, the user of the session is the one
-- that this last effective event leaves: failed logins and logouts change nothing.
session-leaves :
    (u : AuthState) (before after : List Event) (e : Event)
    → is_failure e ≡ false
    → All (λ e. is_failure e ≡ true) after
    → session u (before ++ (e ∷ after)) ≡ leaves e
unfolding session
session-leaves u [] after e h hs =
    ap (λ v. foldl step v after) (step-leaves u e h) ∙ session-failures (leaves e) after hs
session-leaves u (b ∷ before) after e h hs = session-leaves (step u b) before after e h hs

-- A guard's redirect is the only one: where one layout redirects, the layout of the page that it
-- redirects to does not; and a loader of a protected page redirects exactly if the layout does,
-- unless the stored user id is empty.
guards-agree :
    {T : Type 0} (u : AuthState) (loader : String → T)
    → u ≢ some ""
    → ((load_with_user u loader ≡ redirect "/login") ↔ (protected_layout u ≡ redirect "/login"))
      × ((protected_layout u ≡ redirect "/login") ↔ (public_layout u ≡ proceed tt))
      × ((public_layout u ≡ redirect "/home") ↔ (protected_layout u ≡ proceed tt))
unfolding load_with_user protected_layout public_layout is_logged_in
guards-agree none loader other = (ground arith, ground arith, ground arith)
guards-agree (some id) loader other = (ground arith, ground arith, ground arith)
