-- ===== src/Frontend/Cache/Session.antt =====
-- The session and the cache together: what a log-in (contexts/AuthContext/context.tsx of
-- src/frontend/src), a log-out (components/AppHeader/UserPanel.tsx), the loaders of router.tsx and
-- the hooks of the pages do to the user and to the cached data. A run of the program is any sequence
-- of these steps.
pub mod Library
pub mod Keeps
pub mod Steps
pub mod Apart
pub mod Owned
use easytrade.Base.{String, Option, none, some, ◌≡◌, Bool, true, false}
use easytrade.Base.Result.{Result, ok, err}
use easytrade.Frontend.Queries.{
  Key, QueryClient, transactions_key, instruments_key, current_user_key, balance_key,
  card_status_key, card_history_key, logout_invalidate_query,
}
use easytrade.Frontend.Auth.{
  AuthState, LoginResponse, LogoutResponse, Guarded, redirect, proceed, login, logout,
  default_login, load_with_user, public_layout,
}
use easytrade.Frontend.Cache
use easytrade.Frontend.Cache.{QueryCache, Providers, Observer}

-- The data that belong to one user.
pub data UserQuery : Type 0 where
  current_user balance transactions instruments card_status card_history : UserQuery

abbrev pub user_key : UserQuery → Key
user_key current_user = current_user_key
user_key balance = balance_key
user_key transactions = transactions_key
user_key instruments = instruments_key
user_key card_status = card_status_key
user_key card_history = card_history_key

-- The data that are the same for all, those with a loader and the configuration.
pub data PublicQuery : Type 0 where
  preset_users latest_prices feature_flags versions config : PublicQuery
  instrument_prices : String → PublicQuery

-- The user and the cache.
pub record App (C : Type 0) : Type 0 where
  pub user : AuthState
  pub cache : C

module _ {E V : Type 0} (context : Providers E V) where
  -- The hook of a query; a page of a user takes it at that user.
  unfoldable pub observe_user : UserQuery → String → Option V → Observer E V
  unfolding Cache.use_user_query Cache.use_balance_query Cache.use_transaction_query
      Cache.use_instruments_query Cache.use_credit_card_order_status
      Cache.use_credit_card_order_status_history
  observe_user current_user u = Cache.use_user_query context u
  observe_user balance u = Cache.use_balance_query context u
  observe_user transactions u = Cache.use_transaction_query context u
  observe_user instruments u = Cache.use_instruments_query context (some u)
  observe_user card_status u = Cache.use_credit_card_order_status context u
  observe_user card_history u = Cache.use_credit_card_order_status_history context u

  unfoldable pub observe_public : PublicQuery → Option V → Observer E V
  unfolding Cache.use_preset_users_query Cache.use_latest_prices_query Cache.use_problem_flags_query
      Cache.use_versions_query Cache.use_config_flags_query Cache.use_instrument_prices_query
  observe_public preset_users = Cache.use_preset_users_query context
  observe_public latest_prices = Cache.use_latest_prices_query context
  observe_public feature_flags = Cache.use_problem_flags_query context
  observe_public versions = Cache.use_versions_query context
  observe_public config = Cache.use_config_flags_query context
  observe_public (instrument_prices id) = Cache.use_instrument_prices_query context id

module _ {E C V : Type 0} (cache : QueryCache E C V) where
  -- The loader of a query, with the provider that router.tsx gives it.
  unfoldable pub load_user : UserQuery → Providers E V → String → C → Result E V × C
  unfolding Cache.user_loader Cache.balance_loader Cache.transactions_loader
      Cache.instruments_loader Cache.credit_card_status_loader
      Cache.credit_card_status_history_loader
  load_user current_user p u = Cache.user_loader cache p.get_user u
  load_user balance p u = Cache.balance_loader cache p.get_balance u
  load_user transactions p u = Cache.transactions_loader cache p.get_transactions u
  load_user instruments p u = Cache.instruments_loader cache p.get_instruments (some u)
  load_user card_status p u = Cache.credit_card_status_loader cache p.get_credit_card_status u
  load_user card_history p u =
      Cache.credit_card_status_history_loader cache p.get_credit_card_status_history u

  -- There is no loader of the configuration.
  unfoldable pub load_public : PublicQuery → Providers E V → C → C
  unfolding Cache.preset_users_loader Cache.latest_prices_loader Cache.feature_flags_loader
      Cache.versions_loader Cache.instrument_prices_loader
  load_public preset_users p c = (Cache.preset_users_loader cache p.get_preset_users c).1
  load_public latest_prices p c = (Cache.latest_prices_loader cache p.get_latest_prices c).1
  load_public feature_flags p c = (Cache.feature_flags_loader cache p.get_feature_flags c).1
  load_public versions p c = (Cache.versions_loader cache p.get_versions c).1
  load_public config p c = c
  load_public (instrument_prices id) p c =
      (Cache.instrument_prices_loader cache p.get_instrument_prices id c).1

  -- A page of the user is opened: its loader runs inside `loadWithUser`.
  unfoldable pub open_page : UserQuery → Providers E V → App C → Guarded (Result E V) × App C
  unfolding load_with_user
  open_page q p s = elim (load_with_user s.user (λ u. load_user q p u s.cache)) [
    | redirect to ↦ (redirect to, s)
    | proceed (answer, c) ↦ (proceed answer, record s { cache = c })
  ]

  -- A hook begins: data of the route are the first ones.
  unfoldable pub mounted : Observer E V → C → C
  mounted o c = elim o.initial_data [ none ↦ c | some v ↦ cache.mount o.params.query_key v c ]

  -- The query of a hook is fetched, again or for the first time.
  unfoldable pub fetched : Observer E V → C → C
  fetched o c = elim o.params.query_fn [
    | ok v ↦ cache.set_query_data o.params.query_key v c
    | err _ ↦ c
  ]

  -- The mutation of the user panel: `logoutHandler`, and its success or failure, in one step.
  unfoldable pub log_out : LogoutResponse → App C → App C
  unfolding logout logout_invalidate_query
  log_out response s =
      let left = record s { user = logout response s.user } in
      elim response.error [
        | none ↦ record left { cache = logout_invalidate_query cache.client left.cache }
        | some _ ↦ left
      ]
