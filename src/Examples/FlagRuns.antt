-- ===== src/Examples/FlagRuns.antt =====
-- A flag that is switched off on the page of the flags.
use easytrade.Frontend.Env.{get_feature_flag_service_url}
use easytrade.Base.{ℕ, ◌-◌, String, ◌≡◌, refl, Bool, true, false, Option, none, some, [], ◌∷◌}
use easytrade.Base.{if◌then◌else◌, nat_eq}
use easytrade.Base.Text.{Text, codes}
use easytrade.Base.Result.{Result, ok}
use easytrade.Frontend.Queries.{Key}
use easytrade.Frontend.Queries.Laws.{is_prefix}
use easytrade.Frontend.Cache.Session.Library.{same_key}
use easytrade.Frontend.FeatureFlags.{FeatureFlag, Config, initial_state, modify_disabled}
use easytrade.Frontend.FeatureFlags.Item.{get_feature_flag_curl, set_problem_pattern_enabled}
use easytrade.Frontend.FeatureFlags.Item.{item_view, FlagPage, FlagClient}
use easytrade.Frontend.FeatureFlags.Item.{click_toggle}
use easytrade.Frontend.FeatureFlags.Item.Laws.{get_feature_flag_curl-as_curl, as_curl, IsExact}
use easytrade.Frontend.FeatureFlags.Item.Laws.{click_toggle_lem}

abbrev Freshness : Type 0
Freshness = Key → Bool

abbrev flag_client : FlagClient Freshness (Unit {0})
flag_client = record {
  client = record {
    get = λ k c. none;
    is_fresh = λ k c. c k;
    remove_queries = λ p c. c;
    invalidate_queries = λ p c. λ k. if is_prefix p k then false else c k;
  };
  invalidate_exact = λ k c. λ j. if same_key k j then false else c j;
  refetch_queries = λ p c. c;
}

flag_client-IsExact : IsExact flag_client
flag_client-IsExact = record { is_fresh-exact = λ k j c. refl }

abbrev slow_flag : FeatureFlag
slow_flag = record {
  id = "ergo_aggregator_slowdown";
  name = "ergo_aggregator_slowdown";
  description = "slow";
  enabled = true;
  is_modifiable = true;
}

abbrev fresh_page : FlagPage Freshness
fresh_page = record { state = initial_state; cache = λ _. true; clipboard = none; requests = [] }

abbrev managed : Option Config
managed = some (record { feature_flag_management = true })

abbrev answered : Result String (Unit {0})
answered = ok tt

click_toggle_example :
    (click_toggle flag_client [] managed slow_flag answered fresh_page).state.feedback.visible
    ≡ true
unfolding item_view modify_disabled
click_toggle_example =
    (click_toggle_lem flag_client flag_client-IsExact [] [] managed slow_flag none answered
      fresh_page refl).3

get_feature_flag_curl_example :
    get_feature_flag_curl (codes "http://localhost") (codes "db_not_responding") true
    ≡ as_curl (
        set_problem_pattern_enabled
          (get_feature_flag_service_url (codes "http://localhost"))
          (codes "db_not_responding")
          true)
get_feature_flag_curl_example =
    get_feature_flag_curl-as_curl (codes "http://localhost") (codes "db_not_responding") true

-- The capital of a small letter.
abbrev upper : ℕ → Text
upper c = (c - 32) ∷ []
