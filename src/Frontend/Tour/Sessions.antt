-- ===== src/Frontend/Tour/Sessions.antt =====
-- The visits that trade as a whole, from the log-in to the end of the session.
use easytrade.Base.{ℕ, refl, String, string_eq, nat_eq}
use easytrade.Loadgen.Browser.{Browser, Script}
use easytrade.Loadgen.Numbers.{Floats}
use easytrade.Loadgen.User.{User}
use easytrade.Loadgen.Calculators.{BuyOptions, SellOptions, Deal}
use easytrade.Loadgen.Helpers.{login, logout}
use easytrade.Loadgen.Visits.{
  run_session, deposit_and_buy, deposit_and_long_buy, long_sell, sell_and_withdraw,
}
use easytrade.Frontend.Forms.Views.{login_view}
use easytrade.Frontend.Forms.Views.Rendering.{here, there, Rendering}
use easytrade.Frontend.Tour.{login_page, inside, home, credit_card_page, next, form_at, meets}
use easytrade.Frontend.Tour.{has_around, has_inside}
use easytrade.Frontend.Tour.Rules.{Tours, seq-Tours, perform-Tours}
use easytrade.Frontend.Tour.Visits.{trades-Tours}

module _ {S H E : Type 0} (r : Rendering) (b : Browser S H E) where
  login-Tours : (user : User) → Tours r login_page (inside home) (login b user)
  unfolding login meets has_around has_inside form_at login_view next string_eq
  login-Tours user =
      let name = r.text_written login_view _ "login" here refl refl refl in
      let password = r.password_written login_view _ "password" (there here) refl refl refl in
      let button = r.button_found login_view "submitButton" refl in
      seq-Tours _ _ (perform-Tours login_page b _ name) (
        seq-Tours _ _ (perform-Tours login_page b _ refl) (
          seq-Tours _ _ (perform-Tours login_page b _ password) (
            seq-Tours _ _ (perform-Tours login_page b _ refl)
              (perform-Tours login_page b _ button))))

  logout-Tours : Tours r (inside credit_card_page) login_page (logout b)
  unfolding logout meets has_around next string_eq nat_eq
  logout-Tours = seq-Tours _ _ (perform-Tours (inside credit_card_page) b _ refl) (
      seq-Tours _ _ (perform-Tours (inside credit_card_page) b _ refl)
        (perform-Tours (inside credit_card_page) b _ refl))

  run_session-Tours :
      (url : String) (user : User) (steps : Script S H E (Unit {0}))
      → Tours r (inside home) (inside credit_card_page) steps
      → Tours r login_page login_page (run_session b url user steps)
  unfolding run_session meets next
  run_session-Tours url user steps tour = seq-Tours _ _ (perform-Tours login_page b _ refl) (
      seq-Tours _ _ (login-Tours user)
        (seq-Tours _ _ tour (seq-Tours _ _ logout-Tours (perform-Tours login_page b _ refl))))

  -- If the forms are rendered as documented and a log-in is accepted, every call of the four visits
  -- that trade finds what it is for on the page that the calls before it lead to: the fields that are
  -- filled, those that are read, the buttons, the links, the cards and the tabs. This holds whatever
  -- the browser answers and wherever it throws; a visit that returns has begun and ends on the page
  -- for the log-in.
  pub visits-Tours :
      {N : Type 0} (n : Floats N) (pick : ℕ → ℕ) (url : String) (user : User)
      (value ratio duration : N) (buy_calculator : BuyOptions N → Deal N)
      (sell_calculator : SellOptions N → Deal N)
      → Tours r login_page login_page (deposit_and_buy b n pick url user value)
        × Tours r login_page login_page
            (deposit_and_long_buy b n pick buy_calculator url user value duration)
        × Tours r login_page login_page (long_sell b n pick sell_calculator url user ratio duration)
        × Tours r login_page login_page (sell_and_withdraw b n pick url user ratio value)
  unfolding deposit_and_buy deposit_and_long_buy long_sell sell_and_withdraw
  visits-Tours n pick url user value ratio duration buy_calculator sell_calculator =
      let (bought, long_bought, sold, withdrawn) =
        trades-Tours r b n pick home user value ratio duration buy_calculator sell_calculator in
      (
        run_session-Tours url user _ bought,
        run_session-Tours url user _ long_bought,
        run_session-Tours url user _ sold,
        run_session-Tours url user _ withdrawn,
      )
