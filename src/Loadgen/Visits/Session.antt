-- ===== src/Loadgen/Visits/Session.antt =====
-- The session of a visit: one login at the start, one logout and the end of the session last, and
-- nothing of the kind in between.
use easytrade.Base.{ℕ, ◌≡◌, ◌∙◌, String, List, [], ◌∷◌, ◌++◌}
use easytrade.Base.{string_eq}
use easytrade.Loadgen.Browser.{Browser, Call, Script, returned}
use easytrade.Loadgen.Browser.{goto_page, input, click, navigate, short_delay}
use easytrade.Loadgen.Browser.{end_dt_session}
use easytrade.Loadgen.Browser.Within.{Within, Passes}
use easytrade.Loadgen.Browser.Returns.{seq_returned, Performs, perform-Performs, then-Performs}
use easytrade.Loadgen.Numbers.{Floats}
use easytrade.Loadgen.User.{User}
use easytrade.Loadgen.Selectors
use easytrade.Loadgen.Calculators.{BuyOptions, SellOptions, Deal}
use easytrade.Loadgen.Helpers.{login, logout}
use easytrade.Loadgen.Helpers.{is_present}
use easytrade.Loadgen.Helpers.{revoke_card, check_if_card_active, check_if_order_pending}
use easytrade.Loadgen.Visits.{run_session, order_credit_card_steps, deposit_and_buy_steps}
use easytrade.Loadgen.Visits.{deposit_and_long_buy_steps, long_sell_steps, sell_and_withdraw_steps}
use easytrade.Loadgen.Visits.{order_new_card, order_credit_card, deposit_and_buy, long_sell}
use easytrade.Loadgen.Visits.{deposit_and_long_buy, sell_and_withdraw}
use easytrade.Loadgen.Helpers.Quiet.{is_quiet, quiet_rules, goto_page-quiet, goto_random-quiet}
use easytrade.Loadgen.Helpers.Quiet.{tabs-quiet, reads-quiet}

abbrev pub login_calls : {H : Type 0} → User → List (Call H)
login_calls user =
    input Selectors.login_page_username user.username
    ∷ short_delay
    ∷ input Selectors.login_page_password user.password
    ∷ short_delay
    ∷ navigate Selectors.login_page_login_button
    ∷ []

abbrev pub logout_calls : {H : Type 0} → List (Call H)
logout_calls =
    click Selectors.navigation_dropdown_toggler
    ∷ short_delay
    ∷ navigate Selectors.navigation_logout
    ∷ []

module _ {S H E : Type 0} (b : Browser S H E) where
  login-Performs : (user : User) → Performs (login b user) (login_calls user)
  unfolding login
  login-Performs user = search (perform-Performs, then-Performs) depth 12

  logout-Performs : Performs (logout b) logout_calls
  unfolding logout
  logout-Performs = search (perform-Performs, then-Performs) depth 12

  -- What a returned visit has called: the page and the login first, the logout and the end of the
  -- session last, and in between only calls that are quiet.
  abbrev pub IsSession : String → User → List (Call H) → Type 0
  IsSession url user cs =
      (mid : List (Call H)) × Passes is_quiet mid
      × (cs
          ≡ goto_page url ∷ (login_calls user ++ (mid ++ (logout_calls ++ (end_dt_session ∷ [])))))

  run_session-IsSession :
      (url : String) (user : User) (steps : Script S H E (Unit {0}))
      → Within is_quiet steps
      → (s t : S) (cs : List (Call H)) → run_session b url user steps s ≡ returned tt t cs
      → IsSession url user cs
  unfolding run_session
  run_session-IsSession url user steps quiet s t cs e =
      let (s₁, c₁, d₁, r₁, k₁, e₁) = seq_returned _ _ s tt t cs e in
      let (s₂, c₂, d₂, r₂, k₂, e₂) = seq_returned _ _ s₁ tt t d₁ k₁ in
      let (s₃, c₃, d₃, r₃, k₃, e₃) = seq_returned _ _ s₂ tt t d₂ k₂ in
      let (s₄, c₄, d₄, r₄, k₄, e₄) = seq_returned _ _ s₃ tt t d₃ k₃ in
      let p₁ : c₁ ≡ goto_page url ∷ [] = (perform-Performs b _).at s tt s₁ c₁ r₁ in
      let p₂ : c₂ ≡ login_calls user = (login-Performs user).at s₁ tt s₂ c₂ r₂ in
      let p₄ : c₄ ≡ logout_calls = logout-Performs.at s₃ tt s₄ c₄ r₄ in
      let p₅ : d₄ ≡ end_dt_session ∷ [] = (perform-Performs b _).at s₄ tt t d₄ k₄ in
      (c₃, rw r₃ at (quiet.at s₂), e₁ ∙ rw (p₁, e₂, p₂, e₃, e₄, p₄, p₅))

  order_credit_card_steps-quiet :
      (user : User) (card_type : String)
      → Within is_quiet (order_credit_card_steps b user card_type)
  unfolding order_credit_card_steps order_new_card revoke_card check_if_card_active
      check_if_order_pending is_present is_quiet string_eq
  order_credit_card_steps-quiet user card_type =
      let page = goto_page-quiet b in search quiet_rules depth 20

  pub order_credit_card-IsSession :
      (url : String) (user : User) (card_type : String) (s t : S) (cs : List (Call H))
      → order_credit_card b url user card_type s ≡ returned tt t cs
      → IsSession url user cs
  unfolding order_credit_card
  order_credit_card-IsSession url user card_type =
      run_session-IsSession url user _ (order_credit_card_steps-quiet user card_type)

  module _ {N : Type 0} (n : Floats N) (pick : ℕ → ℕ) where
    deposit_and_buy_steps-quiet :
        (user : User) (v : N) → Within is_quiet (deposit_and_buy_steps b n pick user v)
    unfolding deposit_and_buy_steps
    deposit_and_buy_steps-quiet user v =
        let page = goto_page-quiet b in
        let random = goto_random-quiet b pick in
        let tabs = tabs-quiet b in let reads = reads-quiet b n in search quiet_rules depth 30

    deposit_and_long_buy_steps-quiet :
        (calculator : BuyOptions N → Deal N) (user : User) (v d : N)
        → Within is_quiet (deposit_and_long_buy_steps b n pick calculator user v d)
    unfolding deposit_and_long_buy_steps
    deposit_and_long_buy_steps-quiet calculator user v d =
        let page = goto_page-quiet b in
        let random = goto_random-quiet b pick in
        let tabs = tabs-quiet b in let reads = reads-quiet b n in search quiet_rules depth 30

    long_sell_steps-quiet :
        (calculator : SellOptions N → Deal N) (ratio d : N)
        → Within is_quiet (long_sell_steps b n pick calculator ratio d)
    unfolding long_sell_steps
    long_sell_steps-quiet calculator ratio d =
        let page = goto_page-quiet b in
        let random = goto_random-quiet b pick in
        let tabs = tabs-quiet b in let reads = reads-quiet b n in search quiet_rules depth 30

    sell_and_withdraw_steps-quiet :
        (user : User) (ratio least : N)
        → Within is_quiet (sell_and_withdraw_steps b n pick user ratio least)
    unfolding sell_and_withdraw_steps
    sell_and_withdraw_steps-quiet user ratio least =
        let page = goto_page-quiet b in
        let random = goto_random-quiet b pick in
        let tabs = tabs-quiet b in let reads = reads-quiet b n in search quiet_rules depth 30

    -- Each of the five visits, over any browser: if its run returns, it has opened the page, logged
    -- its user in, made only calls that neither begin nor end a session, logged out and ended the
    -- session.
    pub visits-IsSession :
        (url : String) (user : User) (s t : S) (cs : List (Call H))
        → ((card_type : String)
            → order_credit_card b url user card_type s ≡ returned tt t cs
            → IsSession url user cs)
          × ((v : N)
              → deposit_and_buy b n pick url user v s ≡ returned tt t cs
              → IsSession url user cs)
          × ((calculator : BuyOptions N → Deal N) (v d : N)
              → deposit_and_long_buy b n pick calculator url user v d s ≡ returned tt t cs
              → IsSession url user cs)
          × ((calculator : SellOptions N → Deal N) (ratio d : N)
              → long_sell b n pick calculator url user ratio d s ≡ returned tt t cs
              → IsSession url user cs)
          × ((ratio least : N)
              → sell_and_withdraw b n pick url user ratio least s ≡ returned tt t cs
              → IsSession url user cs)
    unfolding order_credit_card deposit_and_buy deposit_and_long_buy long_sell sell_and_withdraw
    visits-IsSession url user s t cs = (
      λ c. order_credit_card-IsSession url user c s t cs,
      λ v. run_session-IsSession url user _ (deposit_and_buy_steps-quiet user v) s t cs,
      λ f v d.
          run_session-IsSession url user _ (deposit_and_long_buy_steps-quiet f user v d) s t cs,
      λ f r d. run_session-IsSession url user _ (long_sell_steps-quiet f r d) s t cs,
      λ r l. run_session-IsSession url user _ (sell_and_withdraw_steps-quiet user r l) s t cs,
    )
