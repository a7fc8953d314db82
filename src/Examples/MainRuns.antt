-- ===== src/Examples/MainRuns.antt =====
-- The load generator's start (src/loadgen/src/main.ts) with providers that always draw the same.
use mathlib.Core.Option.{none-ne-some}
use mathlib.Core.Option
use mathlib.Core.List.{Mem}
use easytrade.Base.{ℕ, ◌≡◌, refl, String, Option, none, some, List, [], ◌∷◌, inl, inr, arith}
use easytrade.Base.{string_eq, false}
use easytrade.Base.Result.{ok}
use easytrade.Loadgen.User.{User, get_random_user, array_random}
use easytrade.Loadgen.Provider.{RegularVisits, Visit, rare_visit, run_visit, get_card_type}
use easytrade.Loadgen.Config.{EnvConfig, get_config, get_provider_config, get_visits_config}
use easytrade.Loadgen.Config.{get_weights, nyse_config}
use easytrade.Loadgen.Config.Laws.{default_config, default_visits}
use easytrade.Loadgen.Visits.Trading.{Completes}
use easytrade.Loadgen.Main.{
  ProviderLibrary, Draws, LoadgenOptions, main, loadgen_options, get_provider,
  get_rare_provider_function,
}
use easytrade.Loadgen.Main.Provided.{IsProviderLibrary, AnyProvides}
use easytrade.Loadgen.Main.Laws.{main-Completes}
use easytrade.Examples.LoadgenRuns.{browser, browser-IsWorking, browser-IsStocked, hundredths, user}

abbrev defaults : EnvConfig ℕ (Unit {0})
defaults = record {
  ensure_number = λ name value. ok value;
  ensure_enum = λ name options value. ok value;
  ensure_url = λ name. ok "http://easytrade";
}

abbrev draws : Draws
draws = record { user = λ k. 0; card_type = λ k. 0 }

-- A provider is the visit that it gives.
abbrev first : List (Option (Visit ℕ)) → Option (Visit ℕ)
first [] = none
first (none ∷ ps) = first ps
first (some v ∷ ps) = some v

abbrev heaviest :
    List (RegularVisits × ℕ) → (RegularVisits → Draws → Option (Visit ℕ)) → Option (Visit ℕ)
heaviest [] f = none
heaviest (w ∷ ws) f = f w.0 draws

abbrev lib : ProviderLibrary ℕ (Option (Visit ℕ))
lib = record {
  weighted = heaviest;
  function_provider = λ f. f draws;
  interval = λ p t. p;
  priority = first;
  rate_limited = λ p span factor learn logger. p;
}

abbrev Gives : Option (Visit ℕ) → Visit ℕ → Type 0
Gives p v = p ≡ some v

first-AnyProvides :
    (ps : List (Option (Visit ℕ))) (v : Visit ℕ) → first ps ≡ some v → AnyProvides Gives ps v
first-AnyProvides [] v e = absurd (none-ne-some v e)
first-AnyProvides (none ∷ ps) v e = inr (first-AnyProvides ps v e)
first-AnyProvides (some w ∷ ps) v e = inl e

heaviest-given :
    (ws : List (RegularVisits × ℕ)) (f : RegularVisits → Draws → Option (Visit ℕ)) (v : Visit ℕ)
    → heaviest ws f ≡ some v
    → (name : RegularVisits) × (d : Draws) × (f name d ≡ some v)
heaviest-given [] f v e = absurd (none-ne-some v e)
heaviest-given (w ∷ ws) f v e = (w.0, draws, e)

lib-IsProviderLibrary : IsProviderLibrary Gives lib
lib-IsProviderLibrary = record {
  weighted = heaviest-given;
  function_provider = λ f v e. (draws, e);
  interval = λ p t v e. e;
  priority = first-AnyProvides;
  rate_limited = λ p v e. e;
}

abbrev card_visit : Visit ℕ
card_visit = rare_visit hundredths (default_visits hundredths "http://easytrade") user "Silver"

abbrev options : LoadgenOptions ℕ (Option (Visit ℕ))
options =
    loadgen_options hundredths (default_config hundredths "http://easytrade") (some card_visit)

started : main hundredths (user ∷ []) lib defaults ≡ ok (some options)
unfolding main get_config get_provider_config get_visits_config get_weights nyse_config get_provider
    get_rare_provider_function get_card_type get_random_user array_random string_eq Option.bind
started = refl

main-Completes_example :
    (url : String) × (u : User) × (defaults.ensure_url "EASYTRADE_URL" ≡ ok url)
    × Mem u (user ∷ [])
    × Completes (browser false) url u tt (run_visit hundredths (browser false) (λ k. 0) card_visit)
main-Completes_example =
    main-Completes (browser false) browser-IsWorking browser-IsStocked (λ k. 0) (λ k. omega arith)
      hundredths defaults (user ∷ []) lib Gives lib-IsProviderLibrary options started card_visit
      refl tt
