-- ===== src/Loadgen/Provider/Laws.antt =====
-- What the provided visits do, and when the stock exchange counts as open.
use easytrade.Base.{ℕ, ◌+◌, ◌*◌, ◌<◌, ◌≡◌, ◌↔◌, refl, true, List, arith, nat_eq}
use easytrade.Loadgen.Browser.{Browser, Call, returned}
use easytrade.Loadgen.Numbers.{Floats}
use easytrade.Loadgen.User.{User}
use easytrade.Loadgen.Provider.{RegularVisits, VisitsConfig, regular, regular_visit}
use easytrade.Loadgen.Provider.{deposit_and_long_buy_success, deposit_and_long_buy_timeout}
use easytrade.Loadgen.Provider.{deposit_and_long_buy_error, long_sell_success, long_sell_timeout}
use easytrade.Loadgen.Provider.{long_sell_error, deposit_and_buy_success, sell_and_withdraw_success}
use easytrade.Loadgen.Provider.{run_visit, is_nyse_open_hours}
use easytrade.Loadgen.Visits.Session.{IsSession, visits-IsSession}

-- Every regular visit has the name that it was asked for, and if its run returns, its calls are a
-- session of the given user at the configured address.
regular_visit-IsSession :
    {S H E N : Type 0} (b : Browser S H E) (n : Floats N) (pick : ℕ → ℕ) (config : VisitsConfig N)
    (user : User) (name : RegularVisits) (s t : S) (cs : List (Call H))
    → run_visit n b pick (regular_visit n config user name) s ≡ returned tt t cs
    → ((regular_visit n config user name).name ≡ regular name)
      × IsSession b config.easytrade_url user cs
unfolding regular_visit run_visit
regular_visit-IsSession b n pick config user deposit_and_long_buy_success s t cs e =
    (refl, (visits-IsSession b n pick config.easytrade_url user s t cs).2 _ _ _ e)
regular_visit-IsSession b n pick config user deposit_and_long_buy_timeout s t cs e =
    (refl, (visits-IsSession b n pick config.easytrade_url user s t cs).2 _ _ _ e)
regular_visit-IsSession b n pick config user deposit_and_long_buy_error s t cs e =
    (refl, (visits-IsSession b n pick config.easytrade_url user s t cs).2 _ _ _ e)
regular_visit-IsSession b n pick config user long_sell_success s t cs e =
    (refl, (visits-IsSession b n pick config.easytrade_url user s t cs).3 _ _ _ e)
regular_visit-IsSession b n pick config user long_sell_timeout s t cs e =
    (refl, (visits-IsSession b n pick config.easytrade_url user s t cs).3 _ _ _ e)
regular_visit-IsSession b n pick config user long_sell_error s t cs e =
    (refl, (visits-IsSession b n pick config.easytrade_url user s t cs).3 _ _ _ e)
regular_visit-IsSession b n pick config user deposit_and_buy_success s t cs e =
    (refl, (visits-IsSession b n pick config.easytrade_url user s t cs).1 _ e)
regular_visit-IsSession b n pick config user sell_and_withdraw_success s t cs e =
    (refl, (visits-IsSession b n pick config.easytrade_url user s t cs).4 _ _ e)

-- With less than 60 minutes, the stock exchange counts as open exactly after 14:30 and before 21:00,
-- by the minutes of the day: at 14:30 itself it is still closed.
pub is_nyse_open_hours_lem :
    (hours minutes : ℕ)
    → minutes < 60
    → (is_nyse_open_hours hours minutes ≡ true)
      ↔ ((14 * 60 + 30 < hours * 60 + minutes) × (hours * 60 + minutes < 21 * 60))
unfolding is_nyse_open_hours nat_eq
is_nyse_open_hours_lem hours minutes h = ground arith
