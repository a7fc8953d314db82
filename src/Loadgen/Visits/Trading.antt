-- ===== src/Loadgen/Visits/Trading.antt =====
-- The visits come to their end over a browser that rejects no call and shows an instrument.
use easytrade.Base.{ℕ, suc, ◌<◌, ◌≡◌, String, List}
use easytrade.Loadgen.Browser.{Browser, Call, Script, returned}
use easytrade.Loadgen.Browser.Total.{Total, IsWorking, total_rules}
use easytrade.Loadgen.Numbers.{Floats}
use easytrade.Loadgen.User.{User}
use easytrade.Loadgen.Calculators.{BuyOptions, SellOptions, Deal}
use easytrade.Loadgen.Helpers.Instruments.{select_quick_buy, select_quick_sell, select_buy}
use easytrade.Loadgen.Helpers.Instruments.{select_sell, schedule_transaction, trade}
use easytrade.Loadgen.Visits.{
  run_session, deposit_and_buy, deposit_and_long_buy, long_sell, sell_and_withdraw,
  deposit_and_buy_steps, deposit_and_long_buy_steps, long_sell_steps, sell_and_withdraw_steps,
}
use easytrade.Loadgen.Visits.Session.{IsSession, visits-IsSession}
use easytrade.Loadgen.Visits.Total.{login-Total, logout-Total, credit_card_page-Total}
use easytrade.Loadgen.Visits.{order_credit_card}
use easytrade.Loadgen.Visits.Total.{order_credit_card-returns}
use easytrade.Loadgen.Visits.Draws.{
  IsStocked, pages-Total, deposit-Total, withdraw-Total, random-Total, reads-Total, name-Total,
}

-- From the state the script returns, and its calls are a session of the user.
abbrev pub Completes :
    {S H E : Type 0} → Browser S H E → String → User → S → Script S H E (Unit {0}) → Type 0
Completes {S} {H} b url user s m =
    (t : S) × (cs : List (Call H)) × (m s ≡ returned tt t cs) × IsSession b url user cs

module _ {S H E : Type 0} (b : Browser S H E) (works : IsWorking b) (stocked : IsStocked b)
    (pick : ℕ → ℕ) (below : (k : ℕ) → pick (suc k) < suc k) {N : Type 0} (n : Floats N) where
  steps-Total :
      (user : User) (value ratio duration : N) (buy_calculator : BuyOptions N → Deal N)
      (sell_calculator : SellOptions N → Deal N)
      → Total (deposit_and_buy_steps b n pick user value)
        × Total (deposit_and_long_buy_steps b n pick buy_calculator user value duration)
        × Total (long_sell_steps b n pick sell_calculator ratio duration)
        × Total (sell_and_withdraw_steps b n pick user ratio value)
  unfolding deposit_and_buy_steps deposit_and_long_buy_steps long_sell_steps sell_and_withdraw_steps
      select_quick_buy select_quick_sell select_buy select_sell trade schedule_transaction
  steps-Total user value ratio duration buy_calculator sell_calculator =
      let pages = pages-Total b works stocked in
      let card = credit_card_page-Total b works in
      let deposited = deposit-Total b works stocked n user value in
      let withdrawn = withdraw-Total b works stocked n user in
      let random = random-Total b works stocked pick below in
      let reads = reads-Total b works stocked n in
      let name = name-Total b works stocked in
      (
        search total_rules depth 30,
        search total_rules depth 30,
        search total_rules depth 30,
        search total_rules depth 30,
      )

  run_session-Total :
      (url : String) (user : User) (steps : Script S H E (Unit {0}))
      → Total steps
      → Total (run_session b url user steps)
  unfolding run_session
  run_session-Total url user steps total =
      let begin = login-Total b works user in
      let end = logout-Total b works in search total_rules depth 12

  -- Over a browser that rejects no call, finds an element for each list and reads all texts,
  -- and with draws that are in range, each of the five visits returns from every state, and its
  -- calls are a session of its user.
  pub visits-Completes :
      (url card_type : String) (user : User) (value ratio duration : N)
      (buy_calculator : BuyOptions N → Deal N) (sell_calculator : SellOptions N → Deal N) (s : S)
      → Completes b url user s (order_credit_card b url user card_type)
        × Completes b url user s (deposit_and_buy b n pick url user value)
        × Completes b url user s
            (deposit_and_long_buy b n pick buy_calculator url user value duration)
        × Completes b url user s (long_sell b n pick sell_calculator url user ratio duration)
        × Completes b url user s (sell_and_withdraw b n pick url user ratio value)
  unfolding deposit_and_buy deposit_and_long_buy long_sell sell_and_withdraw
  visits-Completes url card_type user value ratio duration buy_calculator sell_calculator s =
      let (bought, long_bought, sold, withdrawn) =
        steps-Total user value ratio duration buy_calculator sell_calculator in
      let session = λ (t : S) (cs : List (Call H)). visits-IsSession b n pick url user s t cs in
      let (_, t, cs, e) = (run_session-Total url user _ bought).at s in
      let (_, t₁, cs₁, e₁) = (run_session-Total url user _ long_bought).at s in
      let (_, t₂, cs₂, e₂) = (run_session-Total url user _ sold).at s in
      let (_, t₃, cs₃, e₃) = (run_session-Total url user _ withdrawn).at s in
      (
        order_credit_card-returns b works url user card_type s,
        (t, cs, e, (session t cs).1 value e),
        (t₁, cs₁, e₁, (session t₁ cs₁).2 buy_calculator value duration e₁),
        (t₂, cs₂, e₂, (session t₂ cs₂).3 sell_calculator ratio duration e₂),
        (t₃, cs₃, e₃, (session t₃ cs₃).4 ratio value e₃),
      )
