-- ===== src/Frontend/Cache.antt =====
-- What the pages load and keep: the queries, loaders and hooks of the folders of
-- src/frontend/src/contexts/QueryContext, with QueryContext.tsx. The cache of the package
-- @tanstack/react-query is a parameter. A query function is the answer that its request would get
-- when it is made; the cache holds any type of values, as the package's does.
pub mod Session
use easytrade.Base.{String, Option, none, some}
use easytrade.Base.Result.{Result}
use easytrade.Frontend.Queries.{
  Key, QueryClient, transactions_key, instruments_key, preset_users_key, current_user_key,
  balance_key, card_status_key, card_history_key, latest_prices_key, instrument_prices_key,
  problem_patterns_key, config_key, versions_key,
}

-- The cache with what the loaders and the hooks call: `ensureQueryData` gives the answer and the
-- new cache, `mount` is the start of a `useQuery` with initial data, and `setQueryData` is what a
-- fetch that ends well does to the cache.
pub record QueryCache (E C V : Type 0) : Type 0 where
  pub client : QueryClient C V
  pub ensure_query_data : Key → Result E V → C → Result E V × C
  pub set_query_data : Key → V → C → C
  pub mount : Key → V → C → C

pub record QueryParams (E V : Type 0) : Type 0 where
  pub query_key : Key
  pub query_fn : Result E V

-- `QueryProviderProps`
pub record Providers (E V : Type 0) : Type 0 where
  pub get_user : String → Result E V
  pub get_balance : String → Result E V
  pub get_preset_users : Result E V
  pub get_transactions : String → Result E V
  pub get_instruments : Option String → Result E V
  pub get_latest_prices : Result E V
  pub get_instrument_prices : String → Result E V
  pub get_feature_flags : Result E V
  pub get_config : Result E V
  pub get_credit_card_status : String → Result E V
  pub get_credit_card_status_history : String → Result E V
  pub get_versions : Result E V

-- What a hook hands to `useQuery`.
pub record Observer (E V : Type 0) : Type 0 where
  pub params : QueryParams E V
  pub initial_data : Option V

abbrev pub transform : {P R : Type 0} → (P → R) → P → R
transform fn params = fn params

module _ {E V : Type 0} where
  abbrev pub user_query : Result E V → QueryParams E V
  user_query fn = record { query_key = current_user_key; query_fn = fn }

  abbrev pub balance_query : Result E V → QueryParams E V
  balance_query fn = record { query_key = balance_key; query_fn = fn }

  abbrev pub preset_users_query : Result E V → QueryParams E V
  preset_users_query fn = record { query_key = preset_users_key; query_fn = fn }

  abbrev pub transaction_query : String → Result E V → QueryParams E V
  transaction_query user_id fn = record { query_key = transactions_key; query_fn = fn }

  abbrev pub instruments_query : Result E V → QueryParams E V
  instruments_query fn = record { query_key = instruments_key; query_fn = fn }

  abbrev pub latest_prices_query : Result E V → QueryParams E V
  latest_prices_query fn = record { query_key = latest_prices_key; query_fn = fn }

  abbrev pub instrument_prices_query : String → Result E V → QueryParams E V
  instrument_prices_query instrument_id fn = record {
    query_key = instrument_prices_key instrument_id;
    query_fn = fn;
  }

  abbrev pub problem_flags_query : Result E V → QueryParams E V
  problem_flags_query fn = record { query_key = problem_patterns_key; query_fn = fn }

  abbrev pub config_flags_query : Result E V → QueryParams E V
  config_flags_query fn = record { query_key = config_key; query_fn = fn }

  abbrev pub credit_card_status_query : Result E V → QueryParams E V
  credit_card_status_query fn = record { query_key = card_status_key; query_fn = fn }

  abbrev pub credit_card_status_history_query : Result E V → QueryParams E V
  credit_card_status_history_query fn = record { query_key = card_history_key; query_fn = fn }

  abbrev pub versions_query : Result E V → QueryParams E V
  versions_query fn = record { query_key = versions_key; query_fn = fn }

-- The hooks, over the functions of the query context.
module _ {E V : Type 0} (context : Providers E V) where
  open context use {
    get_user, get_balance, get_preset_users, get_transactions, get_instruments, get_latest_prices,
    get_instrument_prices, get_feature_flags, get_config, get_credit_card_status,
    get_credit_card_status_history, get_versions,
  }

  abbrev observer : QueryParams E V → Option V → Observer E V
  observer params initial_data = record { params = params; initial_data = initial_data }

  unfoldable pub use_user_query : String → Option V → Observer E V
  use_user_query user_id = observer (user_query (transform get_user user_id))

  unfoldable pub use_balance_query : String → Option V → Observer E V
  use_balance_query user_id = observer (balance_query (transform get_balance user_id))

  unfoldable pub use_preset_users_query : Option V → Observer E V
  use_preset_users_query = observer (preset_users_query get_preset_users)

  unfoldable pub use_transaction_query : String → Option V → Observer E V
  use_transaction_query user_id =
      observer (transaction_query user_id (transform get_transactions user_id))

  unfoldable pub use_instruments_query : Option String → Option V → Observer E V
  use_instruments_query user_id = observer (instruments_query (transform get_instruments user_id))

  unfoldable pub use_latest_prices_query : Option V → Observer E V
  use_latest_prices_query = observer (latest_prices_query get_latest_prices)

  unfoldable pub use_instrument_prices_query : String → Option V → Observer E V
  use_instrument_prices_query instrument_id =
      observer
        (instrument_prices_query instrument_id (transform get_instrument_prices instrument_id))

  unfoldable pub use_problem_flags_query : Option V → Observer E V
  use_problem_flags_query = observer (problem_flags_query get_feature_flags)

  unfoldable pub use_config_flags_query : Option V → Observer E V
  use_config_flags_query = observer (config_flags_query get_config)

  unfoldable pub use_credit_card_order_status : String → Option V → Observer E V
  use_credit_card_order_status user_id =
      observer (credit_card_status_query (transform get_credit_card_status user_id))

  unfoldable pub use_credit_card_order_status_history : String → Option V → Observer E V
  use_credit_card_order_status_history user_id =
      observer (credit_card_status_history_query (transform get_credit_card_status_history user_id))

  unfoldable pub use_versions_query : Option V → Observer E V
  use_versions_query = observer (versions_query get_versions)

-- The loaders, each from the cache and its provider.
module _ {E C V : Type 0} (cache : QueryCache E C V) where
  abbrev ensure : QueryParams E V → C → Result E V × C
  ensure params = cache.ensure_query_data params.query_key params.query_fn

  unfoldable pub user_loader : (String → Result E V) → String → C → Result E V × C
  user_loader provider user_id = ensure (user_query (transform provider user_id))

  unfoldable pub balance_loader : (String → Result E V) → String → C → Result E V × C
  balance_loader provider user_id = ensure (balance_query (transform provider user_id))

  unfoldable pub preset_users_loader : Result E V → C → Result E V × C
  preset_users_loader provider = ensure (preset_users_query provider)

  unfoldable pub transactions_loader : (String → Result E V) → String → C → Result E V × C
  transactions_loader provider user_id =
      ensure (transaction_query user_id (transform provider user_id))

  unfoldable pub instruments_loader :
      (Option String → Result E V) → Option String → C → Result E V × C
  instruments_loader provider user_id = ensure (instruments_query (transform provider user_id))

  unfoldable pub latest_prices_loader : Result E V → C → Result E V × C
  latest_prices_loader provider = ensure (latest_prices_query provider)

  unfoldable pub instrument_prices_loader : (String → Result E V) → String → C → Result E V × C
  instrument_prices_loader provider instrument_id =
      ensure (instrument_prices_query instrument_id (transform provider instrument_id))

  unfoldable pub feature_flags_loader : Result E V → C → Result E V × C
  feature_flags_loader provider = ensure (problem_flags_query provider)

  unfoldable pub credit_card_status_loader : (String → Result E V) → String → C → Result E V × C
  credit_card_status_loader provider user_id =
      ensure (credit_card_status_query (transform provider user_id))

  unfoldable pub credit_card_status_history_loader :
      (String → Result E V) → String → C → Result E V × C
  credit_card_status_history_loader provider user_id =
      ensure (credit_card_status_history_query (transform provider user_id))

  unfoldable pub versions_loader : Result E V → C → Result E V × C
  versions_loader provider = ensure (versions_query provider)
