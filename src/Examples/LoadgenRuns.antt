-- ===== src/Examples/LoadgenRuns.antt =====
-- The load generator's visits (src/loadgen/src/visits) over a browser that answers every question
-- the same way.
use easytrade.Base.{ℕ, zero, suc, ◌/◌, ◌≡◌, refl, Bool, true, false, List, [], ◌∷◌, leb}
use easytrade.Base.{arith, if◌then◌else◌}
use easytrade.Base.Result.{ok}
use easytrade.Loadgen.Browser.{
  Browser, Call, Selector, returned, calls, ◌>>=◌, ◌>>◌, perform, query, pure,
}
use easytrade.Loadgen.Numbers.{Floats}
use easytrade.Loadgen.User.{User, visa_debit}
use easytrade.Loadgen.Browser.Total.{IsWorking}
use easytrade.Loadgen.Visits.Draws.{IsStocked}
use easytrade.Loadgen.Browser.{throw}
use easytrade.Loadgen.User.{array_random}
use easytrade.Loadgen.Calculators.{random_amount}
use easytrade.Loadgen.Provider.{get_deposit_value}
use easytrade.Loadgen.Visits.{deposit_and_buy, deposit_and_buy_steps}
use easytrade.Loadgen.Helpers.{goto_deposit_page, deposit, fill_user_deposit_data, fill_card_data}
use easytrade.Loadgen.Helpers.{select_card_provider}
use easytrade.Loadgen.Helpers.Instruments.{goto_random_instrument, get_random_instrument}
use easytrade.Loadgen.Helpers.Instruments.{goto_instruments_page, goto_instrument_page, open_card}
use easytrade.Loadgen.Helpers.Instruments.{
  wait_for_instruments, all_handles, select_quick_buy, trade,
}
use easytrade.Loadgen.Helpers.Instruments.{get_instrument_price, get_current_balance, value_of}
use easytrade.Loadgen.Helpers.Instruments.{get_instrument_name}
use easytrade.Loadgen.Provider.{VisitsConfig, Visit, regular_visit, run_visit}
use easytrade.Loadgen.Provider.{deposit_and_buy_success, is_nyse_open_hours}
use easytrade.Loadgen.Provider.Laws.{is_nyse_open_hours_lem}
use easytrade.Base.{◌↔◌, ◌<◌, ◌*◌, ◌+◌}
use easytrade.Loadgen.Calculators.{BuyOptions, SellOptions, success_buy_calculator}
use easytrade.Loadgen.Calculators.Laws.{IsRounding, buy_calculators_bounds}
use easytrade.Loadgen.Calculators.Laws.{one}
use easytrade.Loadgen.Helpers.{login, logout, goto_credit_card_page, goto_page_with_nav_bar}
use easytrade.Loadgen.Helpers.{show_navbar, toggle_if, is_present, check_if_order_pending}
use easytrade.Loadgen.Helpers.{check_if_card_active, revoke_card, order_card}
use easytrade.Loadgen.Visits.{order_credit_card, order_credit_card_steps, run_session}
use easytrade.Loadgen.Visits.{order_new_card}
use easytrade.Loadgen.Visits.Session.{IsSession, visits-IsSession}
use easytrade.Loadgen.Visits.Orders.{Answers}

-- Numbers in hundredths, where a random number is the lower bound of its interval.
abbrev power : ℕ → ℕ
power zero = 1
power (suc k) = 10 * power k

abbrev pub hundredths : Floats ℕ
hundredths = record {
  decimal = λ m k. m * 100 / power k;
  le = leb;
  mul = λ x y. x * y / 100;
  div = λ x y. x * 100 / y;
  max = λ x y. if leb x y then y else x;
  floor = λ x. x / 100 * 100;
  ceil = λ x. (x + 99) / 100 * 100;
  random_between = λ x y. x;
  show = λ x. "";
  parse_float = λ s. 0;
  parse_int = λ s. 0;
}

one_is : one hundredths ≡ 100
one_is = refl

hundredths-IsRounding : IsRounding hundredths
hundredths-IsRounding = record {
  le_trans = λ x y z h k. ground arith;
  floor-le = λ x h. ground arith;
  one-le-floor = λ x h. ground arith;
  le_self = λ x y h. ground arith;
  between = λ x y h. (ground arith, h);
}

abbrev buy_options : BuyOptions ℕ
buy_options = record { balance = 100000; ask_price = 1000; max_cost = 50000 }

buy_calculators_bounds_example :
    let deal = success_buy_calculator hundredths buy_options in
    (leb 100 deal.amount ≡ true) × (leb deal.amount (50000 * 100 / deal.price) ≡ true)
unfolding success_buy_calculator
buy_calculators_bounds_example =
    (buy_calculators_bounds hundredths hundredths-IsRounding buy_options).0 refl

abbrev sell_options : SellOptions ℕ
sell_options = record { ask_price = 1000; owned_amount = 2000; ratio = 50 }

abbrev pub browser : Bool → Browser (Unit {0}) (Unit {0}) (Unit {0})
browser answer = record {
  act = λ c s. ok tt;
  present = λ sel s. ok (answer, tt);
  handle = λ sel s. ok (tt, tt);
  handles = λ sel s. ok (tt ∷ [], tt);
  property = λ sel name s. ok ("10", tt);
  inner_text = λ sel s. ok ("10", tt);
}

abbrev pub user : User
user = record {
  first_name = "Ann";
  last_name = "Lee";
  username = "ann";
  email = "ann@example.com";
  password = "secret";
  user_agent = "agent";
  ip4 = "10.0.0.1";
  address = "Main Street 1";
  credit_card_number = "4111111111111111";
  credit_card_cvv = "123";
  credit_card_provider = visa_debit;
  visitor_id = "visitor";
}

pub always : (answer : Bool) (sel : Selector) → Answers (browser answer) sel answer
always answer sel s a t given = ground arith

abbrev visit_calls : List (Call (Unit {0}))
visit_calls = calls (order_credit_card (browser false) "http://easytrade" user "Gold" tt)

visit_returns :
    order_credit_card (browser false) "http://easytrade" user "Gold" tt ≡ returned tt tt visit_calls
unfolding order_credit_card order_credit_card_steps run_session order_new_card login logout
    goto_credit_card_page goto_page_with_nav_bar show_navbar toggle_if is_present
    check_if_order_pending check_if_card_active revoke_card order_card ◌>>=◌ ◌>>◌ perform query pure
visit_returns = refl

visits-IsSession_example : IsSession (browser false) "http://easytrade" user visit_calls
visits-IsSession_example =
    (visits-IsSession (browser false) hundredths (λ n. 0) "http://easytrade" user tt tt
        visit_calls).0
      "Gold" visit_returns

abbrev config : VisitsConfig ℕ
config = record {
  deposit_min_value = 50000;
  deposit_max_value = 150000;
  asset_sell_ratio = 10;
  withdraw_min_value = 50000;
  transaction_min_duration = 100;
  transaction_max_duration = 2400;
  easytrade_url = "http://easytrade";
}

abbrev planned : Visit ℕ
planned = regular_visit hundredths config user deposit_and_buy_success

abbrev planned_calls : List (Call (Unit {0}))
planned_calls = calls (run_visit hundredths (browser true) (λ n. 0) planned tt)

planned_returns :
    run_visit hundredths (browser true) (λ n. 0) planned tt ≡ returned tt tt planned_calls
unfolding regular_visit run_visit deposit_and_buy run_session deposit_and_buy_steps login logout
    goto_deposit_page goto_page_with_nav_bar show_navbar is_present toggle_if deposit
    fill_user_deposit_data fill_card_data select_card_provider goto_random_instrument
    get_random_instrument goto_instruments_page goto_instrument_page wait_for_instruments
    all_handles open_card select_quick_buy get_instrument_price get_current_balance
    get_instrument_name value_of trade array_random get_deposit_value random_amount
    goto_credit_card_page ◌>>=◌ ◌>>◌ perform query pure throw
planned_returns = refl

is_nyse_open_hours_example :
    (is_nyse_open_hours 14 30 ≡ true) ↔ ((14 * 60 + 30 < 14 * 60 + 30) × (14 * 60 + 30 < 21 * 60))
is_nyse_open_hours_example = is_nyse_open_hours_lem 14 30 (omega arith)

pub browser-IsWorking : IsWorking (browser false)
browser-IsWorking = record {
  acts = λ c s. (tt, refl);
  presents = λ sel s. ((false, tt), refl);
  handles = λ sel s. ((tt, tt), refl);
}

pub browser-IsStocked : IsStocked (browser false)
browser-IsStocked = record {
  lists = λ sel s. (tt, [], tt, refl);
  properties = λ sel name s. (("10", tt), refl);
  texts = λ sel s. (("10", tt), refl);
}
