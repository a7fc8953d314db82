-- ===== src/Examples/CacheRuns.antt =====
-- A run of the session with a cache that is a function: the user 2 logs in and opens a page.
use easytrade.Base.{String, Option, none, some, ◌≡◌, refl, Bool, false, arith, if◌then◌else◌}
use easytrade.Base.Result.{Result, ok, err}
use easytrade.Frontend.Queries.{Key}
use easytrade.Frontend.Queries.Laws.{IsClient, is_prefix}
use easytrade.Frontend.Auth.{login, public_layout, is_logged_in}
use easytrade.Frontend.Cache.{QueryCache, Providers}
use easytrade.Frontend.Cache.Session.Library.{IsCache, same_key}
use easytrade.Frontend.Cache.Session.Steps.{IsOwned, log_in, Reach, start, later}
use easytrade.Frontend.Cache.Session.Owned.{Reach-IsOwned}

-- A value names the user that it belongs to.
abbrev Cached : Type 0
Cached = (Key → Option String) × (Key → Bool)

abbrev set_data : Key → String → Cached → Cached
set_data k v c = (λ j. if same_key k j then some v else c.0 j, c.1)

abbrev ensure_data : Key → Result String String → Cached → Result String String × Cached
ensure_data k r c = elim (c.0 k) [
  | some v ↦ (ok v, c)
  | none ↦ elim r [ ok v ↦ (ok v, set_data k v c) | err e ↦ (err e, c) ]
]

abbrev mount_data : Key → String → Cached → Cached
mount_data k v c = elim (c.0 k) [ some _ ↦ c | none ↦ set_data k v c ]

abbrev a_cache : QueryCache String Cached String
a_cache = record {
  client = record {
    get = λ k c. c.0 k;
    is_fresh = λ k c. c.1 k;
    remove_queries = λ p c. (λ k. if is_prefix p k then none else c.0 k, c.1);
    invalidate_queries = λ p c. (c.0, λ k. if is_prefix p k then false else c.1 k);
  };
  ensure_query_data = ensure_data;
  set_query_data = set_data;
  mount = mount_data;
}

a_cache-IsClient : IsClient a_cache.client
a_cache-IsClient = record {
  get_removed = λ p k c h. ground arith;
  get_kept = λ p k c h. ground arith;
  is_fresh_invalidated = λ p k c h. ground arith;
  is_fresh_kept = λ p k c h. ground arith;
}

a_cache-IsCache : IsCache a_cache
a_cache-IsCache = record {
  laws = a_cache-IsClient;
  get-set = λ k j v c. refl;
  ensure_found = λ k r c v h. let e : c.0 k ≡ some v = h in rw (e, ensure_data) (refl, λ j. refl);
  ensure_fetched = λ k v c h. let e : c.0 k ≡ none = h in rw (e, ensure_data) (refl, λ j. refl);
  ensure_failed = λ k x c h. let e : c.0 k ≡ none = h in rw (e, ensure_data) (refl, λ j. refl);
  mount_found = λ k j v w c h. let e : c.0 k ≡ some w = h in rw (e, mount_data) refl;
  mount_new = λ k j v c h. let e : c.0 k ≡ none = h in rw (e, mount_data) refl;
  get-invalidate = λ p k c. refl;
}

-- Each service answers with the id that it is asked about.
abbrev echoes : Providers String String
echoes = record {
  get_user = ok;
  get_balance = ok;
  get_preset_users = ok "all";
  get_transactions = ok;
  get_instruments = λ u. elim u [ none ↦ ok "all" | some id ↦ ok id ];
  get_latest_prices = ok "all";
  get_instrument_prices = ok;
  get_feature_flags = ok "all";
  get_config = ok "all";
  get_credit_card_status = ok;
  get_credit_card_status_history = ok;
  get_versions = ok "all";
}

abbrev empty_cache : Cached
empty_cache = (λ _. none, λ _. false)

logged_in_run : Reach a_cache (λ u v. u ≡ v) (record { user = some "2"; cache = empty_cache })
unfolding login public_layout is_logged_in
logged_in_run =
    later (start none empty_cache (λ k. refl))
      (log_in (record { id = some "2"; error = none }) refl)

Reach-IsOwned_example :
    IsOwned a_cache (λ u v. u ≡ v) (record { user = some "2"; cache = empty_cache })
Reach-IsOwned_example = Reach-IsOwned a_cache a_cache-IsCache (λ u v. u ≡ v) logged_in_run
