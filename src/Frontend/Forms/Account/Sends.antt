-- ===== src/Frontend/Forms/Account/Sends.antt =====
-- What the forms for the account send, and what the login page makes of the session.
use easytrade.Base.{◌≡◌, refl, ◌∙◌, ap, inl, inr, Bool, true, false, arith, ◌||◌, ◌&&◌, Bool-cases}
use easytrade.Base.{String, if◌then◌else◌, Option, none, some, List, [], ◌∷◌, Option-cases}
use easytrade.Base.Result.{Result}
use easytrade.Frontend.Auth.{LoginResponse, Event, logged_in, AuthState, session, step, login}
use easytrade.Frontend.Auth.{is_logged_in, default_login}
use easytrade.Frontend.CardOrder.{order_credit_card, CreditCardResponse, Thrown}
use easytrade.Frontend.CardOrder.{CreditCardOrderResponse}
use easytrade.Frontend.Queries.{QueryClient}
use easytrade.Frontend.Forms.{Validators, FormLibrary, FormState, meets}
use easytrade.Frontend.Forms.Account.{SignupData, SignupRequest, LoginData, DefaultLoginData}
use easytrade.Frontend.Forms.Account.{CreditCardData, PresetUser, login_schema}
use easytrade.Frontend.Forms.Account.{default_login_schema}
use easytrade.Frontend.Forms.Account.Submit.{CreditCardOrderRequest, signup_form, login_form}
use easytrade.Frontend.Forms.Account.Submit.{default_login_form, credit_card_form, chosen}
use easytrade.Frontend.Forms.Account.Laws.{signup_promise, login_promise, credit_card_promise}
use easytrade.Frontend.Forms.Account.Laws.{signup-Keeps, login-Keeps, credit_card-Keeps}
use easytrade.Frontend.Forms.Settled.{IsSettled, submit-IsSettled}

-- The sign-up form, the login form and the form that orders a card, over any form library: values
-- that are complete, with equal passwords for a sign-up, are sent once, a sign-up without the
-- repeated password, and others change nothing. An error is shown and the values stay; after a
-- success a sign-up and an order have blank fields and their message, with the order's id, and an
-- order refreshes the status of the card.
pub account_forms-IsSettled :
    {C P V N E : Type 0} (client : QueryClient C V) (v : Validators) (account_id : N)
    (lib_signup : FormLibrary SignupData C P (Unit {0}))
    (lib_login : FormLibrary LoginData C Event (Unit {0}))
    (lib_order : FormLibrary CreditCardData C (CreditCardOrderRequest N) String)
    (signup : SignupRequest → Option String × List P) (sign_in : String → String → LoginResponse)
    (post : CreditCardOrderRequest N → Result (Thrown E) (CreditCardResponse String))
    (s : FormState SignupData C P) (t : FormState LoginData C Event)
    (u : FormState CreditCardData C (CreditCardOrderRequest N))
    → let order : CreditCardOrderRequest N → CreditCardOrderResponse =
        λ r. order_credit_card (post r) in
      IsSettled
        (signup_promise v lib_signup signup)
        s
        (lib_signup.submit (signup_form v lib_signup signup) s)
      × IsSettled (login_promise sign_in) t (lib_login.submit (login_form sign_in) t)
      × IsSettled
          (credit_card_promise client v account_id lib_order order)
          u
          (lib_order.submit (credit_card_form client v account_id lib_order order) u)
account_forms-IsSettled client v account_id lib_signup lib_login lib_order signup sign_in post s t
      u =
    (
      submit-IsSettled _ _ (signup-Keeps v lib_signup signup) lib_signup s,
      submit-IsSettled _ _ (login-Keeps sign_in) lib_login t,
      submit-IsSettled _ _ (credit_card-Keeps client v account_id lib_order _) lib_order u,
    )

-- A given option.
abbrev is_some : {A : Type 0} → Option A → Bool
is_some none = false
is_some (some a) = true

sends_login :
    {C : Type 0} (lib : FormLibrary LoginData C Event (Unit {0}))
    (submit_handler : String → String → LoginResponse) (s : FormState LoginData C Event)
    → s.sent ≡ []
    → (lib.submit (login_form submit_handler) s).sent ≡ (
        if meets login_schema s.values
        then logged_in (submit_handler s.values.login s.values.password) ∷ []
        else [])
unfolding login_form
sends_login lib submit_handler s fresh = elim (Bool-cases (meets login_schema s.values)) [
  | inl met ↦
      let answer = (submit_handler s.values.login s.values.password).error in
      ap (λ t. t.sent) (lib.accepts (login_form submit_handler) s met)
      ∙ elim (Option-cases answer) [
        | inl none_there ↦ rw (none_there, fresh, met) refl
        | inr (msg, failed) ↦ rw (failed, fresh, met) refl
      ]
  | inr unmet ↦
      ap (λ t. t.sent) (lib.rejects (login_form submit_handler) s unmet) ∙ rw (unmet) fresh
]

sends_default_login :
    {C : Type 0} (lib : FormLibrary DefaultLoginData C Event (Unit {0})) (users : List PresetUser)
    (t : FormState DefaultLoginData C Event)
    → t.sent ≡ []
    → (lib.submit (default_login_form users) t).sent ≡ chosen t.values.user_id
unfolding default_login_form default_login_schema
sends_default_login lib users t clean = elim (Option-cases t.values.user_id) [
  | inl missing ↦
      ap (λ u. u.sent) (lib.rejects (default_login_form users) t (rw missing refl))
      ∙ rw missing clean
  | inr (id, there) ↦
      ap (λ u. u.sent) (lib.accepts (default_login_form users) t (rw there refl)) ∙ rw (clean) refl
]

-- On the login page, a press on the form for names and passwords leads to a session exactly if
-- there was one already or both fields are filled and the answer has an id; a press on the form
-- for preset users leads to a session exactly if there was one or a user is chosen, and then it is
-- the session of that user.
pub login_page-session :
    {C : Type 0} (lib : FormLibrary LoginData C Event (Unit {0}))
    (lib_default : FormLibrary DefaultLoginData C Event (Unit {0}))
    (submit_handler : String → String → LoginResponse) (users : List PresetUser)
    (user_id : AuthState) (s : FormState LoginData C Event) (t : FormState DefaultLoginData C Event)
    → s.sent ≡ []
    → t.sent ≡ []
    → (is_logged_in (session user_id (lib.submit (login_form submit_handler) s).sent) ≡ (
        is_logged_in user_id
        || (meets login_schema s.values
            && is_some (submit_handler s.values.login s.values.password).id)))
      × (session user_id (lib_default.submit (default_login_form users) t).sent
          ≡ (elim t.values.user_id [ none ↦ user_id | some id ↦ some id ]))
unfolding session step login default_login is_logged_in
login_page-session lib lib_default submit_handler users user_id s t fresh clean = (
  rw (sends_login lib submit_handler s fresh) (ground arith),
  rw (sends_default_login lib_default users t clean) (ground arith),
)
