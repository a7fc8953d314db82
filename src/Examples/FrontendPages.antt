-- ===== src/Examples/FrontendPages.antt =====
-- Pages of the frontend (src/frontend/src): transactions, flags, messages, the cache and the versions,
-- on concrete states.
use easytrade.Base.{ℕ, ◌≡◌, refl, ◌≢◌, String, true, false, Option}
use easytrade.Base.{none, some, List, [], ◌∷◌, map, arith, string_eq, nat_eq, ◌==◌}
use easytrade.Base.Dict.{NodupKeys}
use easytrade.Base.Result.{Result, ok, err}
use easytrade.Frontend.Transactions.{RawTransaction, Transaction, counted}
use easytrade.Frontend.Transactions.{get_transactions_data, Instrument}
use easytrade.Frontend.Transactions.{map_raw_transaction}
use easytrade.Frontend.Transactions.Laws.{get_transactions_data_lem, total}
use easytrade.Frontend.Transactions.Laws.{NamesAreNoIds, occurrences}
use easytrade.Frontend.Queries.{Key, QueryClient}
use easytrade.Frontend.Queries.{logout_invalidate_query}
use easytrade.Frontend.Queries.Laws.{is_prefix, IsClient, user_data, logout_invalidate_query_lem}
use easytrade.Frontend.Versions.{ServiceVersionData}
use easytrade.Base.{Bool, All, if◌then◌else◌}
use easytrade.Frontend.FeatureFlags.{RawFeatureFlag}

abbrev a_trade : RawTransaction ℕ
a_trade = record {
  instrument_id = "3";
  direction = "longbuy";
  quantity = 5;
  entry_price = 10;
  timestamp_close = "2024-01-01";
  status = "Transaction finished";
}

abbrev two_trades : Result String (List (RawTransaction ℕ))
two_trades = ok (a_trade ∷ a_trade ∷ [])

abbrev one_transaction : Transaction ℕ
one_transaction = map_raw_transaction some a_trade 0

get_transactions_data_example :
    let found = get_transactions_data (one_transaction ∷ one_transaction ∷ []) (λ t. t.status) in
    NodupKeys found
    × ((k : String)
        → counted k found
          ≡ occurrences k (map (λ t. t.status) (one_transaction ∷ one_transaction ∷ [])))
    × (total found ≡ 2)
get_transactions_data_example =
    get_transactions_data_lem (one_transaction ∷ one_transaction ∷ []) (λ t. t.status)

abbrev instruments : List Instrument
instruments = record { id = "3"; name = "EasyTravel" } ∷ record { id = "4"; name = "EasyPay" } ∷ []

apart : NamesAreNoIds instruments
unfolding string_eq
apart = (refl, (refl, tt))

differs : (s t : String) → (s == t) ≡ false → s ≢ t
differs s t h e = ground arith

named : ◌≢◌ {A = String} "2" ""
unfolding string_eq
named = differs "2" "" refl

flag_named : ◌≢◌ {A = String} "flag" ""
unfolding string_eq
flag_named = differs "flag" "" refl

other_named : ◌≢◌ {A = String} "other" ""
unfolding string_eq
other_named = differs "other" "" refl

two_stored : ◌≢◌ {A = Option String} (some "2") (some "")
two_stored e = ground (arith, named)

abbrev management : RawFeatureFlag
management = record {
  id = "frontend_feature_flag_management";
  enabled = true;
  name = "management";
  description = "";
  is_modifiable = true;
  tag = "config";
}

abbrev flags_reply : Result String (List RawFeatureFlag)
flags_reply = ok (management ∷ [])

-- A cache with the data and the freshness of each key.
abbrev pub Cache : Type 0
Cache = (Key → Option String) × (Key → Bool)

abbrev pub cache_client : QueryClient Cache String
cache_client = record {
  get = λ k c. c.0 k;
  is_fresh = λ k c. c.1 k;
  remove_queries = λ p c. (λ k. if is_prefix p k then none else c.0 k, c.1);
  invalidate_queries = λ p c. (c.0, λ k. if is_prefix p k then false else c.1 k);
}

pub cache_client-IsClient : IsClient cache_client
cache_client-IsClient = record {
  get_removed = λ p k c h. ground arith;
  get_kept = λ p k c h. ground arith;
  is_fresh_invalidated = λ p k c h. ground arith;
  is_fresh_kept = λ p k c h. ground arith;
}

abbrev pub full_cache : Cache
full_cache = (λ _. some "data", λ _. true)

logout_invalidate_query_example :
    All (λ k. cache_client.get k (logout_invalidate_query cache_client full_cache) ≡ none) user_data
logout_invalidate_query_example =
    (logout_invalidate_query_lem cache_client cache_client-IsClient full_cache).0

abbrev pub only_engine : String → Result String ServiceVersionData
only_engine path =
    if path == "/engine/api/version"
    then ok (record { build_version = "1"; build_date = ""; build_commit = "" })
    else err "timeout"
