-- ===== src/Loadgen/Visits/Total.antt =====
-- `OrderCreditCardVisit` comes to its end over a browser that rejects no call.
use easytrade.Base.{◌≡◌, String, List}
use easytrade.Loadgen.Browser.{Browser, Call, returned}
use easytrade.Loadgen.Browser.Total.{Total, IsWorking, total_rules}
use easytrade.Loadgen.User.{User}
use easytrade.Loadgen.Helpers.{login, logout, goto_credit_card_page, goto_page_with_nav_bar}
use easytrade.Loadgen.Helpers.{show_navbar, toggle_if, is_present, check_if_order_pending}
use easytrade.Loadgen.Helpers.{check_if_card_active, revoke_card, order_card}
use easytrade.Loadgen.Visits.{order_credit_card, order_credit_card_steps, run_session}
use easytrade.Loadgen.Visits.{order_new_card}
use easytrade.Loadgen.Visits.Session.{IsSession, order_credit_card-IsSession}

module _ {S H E : Type 0} (b : Browser S H E) (works : IsWorking b) where
  pub login-Total : (user : User) → Total (login b user)
  unfolding login
  login-Total user = search total_rules depth 12

  pub logout-Total : Total (logout b)
  unfolding logout
  logout-Total = search total_rules depth 12

  pub credit_card_page-Total : Total (goto_credit_card_page b)
  unfolding goto_credit_card_page goto_page_with_nav_bar show_navbar toggle_if is_present
  credit_card_page-Total = search total_rules depth 12

  order_card-Total : (user : User) (card_type : String) → Total (order_card b user card_type)
  unfolding order_card
  order_card-Total user card_type = search total_rules depth 30

  order_new_card-Total :
      (user : User) (card_type : String) → Total (order_new_card b user card_type)
  unfolding order_new_card check_if_card_active revoke_card is_present
  order_new_card-Total user card_type =
      let order = order_card-Total user card_type in search total_rules depth 12

  steps-Total :
      (user : User) (card_type : String) → Total (order_credit_card_steps b user card_type)
  unfolding order_credit_card_steps check_if_order_pending is_present
  steps-Total user card_type =
      let page = credit_card_page-Total in
      let order = order_new_card-Total user card_type in search total_rules depth 12

  visit-Total :
      (url : String) (user : User) (card_type : String)
      → Total (order_credit_card b url user card_type)
  unfolding order_credit_card run_session
  visit-Total url user card_type =
      let begin = login-Total user in
      let end = logout-Total in
      let steps = steps-Total user card_type in search total_rules depth 12

  -- Over a browser that rejects no call the credit card visit returns from every state, whatever the
  -- page shows, and its calls are a session of its user.
  pub order_credit_card-returns :
      (url : String) (user : User) (card_type : String) (s : S)
      → (t : S) × (cs : List (Call H)) × (order_credit_card b url user card_type s
          ≡ returned tt t cs)
        × IsSession b url user cs
  order_credit_card-returns url user card_type s =
      let (_, t, cs, e) = (visit-Total url user card_type).at s in
      (t, cs, e, order_credit_card-IsSession b url user card_type s t cs e)
