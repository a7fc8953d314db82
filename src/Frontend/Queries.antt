-- ===== src/Frontend/Queries.antt =====
-- The keys of the query cache and what is removed or invalidated, when:
-- src/frontend/src/contexts/QueryContext (queries.ts of each folder). The cache is that of the
-- package @tanstack/react-query and a parameter: any type with the three operations below.
pub mod Laws
use easytrade.Base.{String, Option, List, [], ◌∷◌, Bool}

abbrev pub Key : Type 0
Key = List String

-- The cache's operations: a key's data, whether they count as fresh, and the two operations that
-- apply to all keys with a prefix.
pub record QueryClient (C V : Type 0) : Type 0 where
  pub get : Key → C → Option V
  pub is_fresh : Key → C → Bool
  pub remove_queries : Key → C → C
  pub invalidate_queries : Key → C → C

abbrev pub transactions_key : Key
transactions_key = "transactions" ∷ []

abbrev pub instruments_key : Key
instruments_key = "instruments" ∷ []

abbrev pub preset_users_key : Key
preset_users_key = "users" ∷ "preset" ∷ []

abbrev pub current_user_key : Key
current_user_key = "users" ∷ "current" ∷ []

abbrev pub balance_key : Key
balance_key = "balance" ∷ []

abbrev pub credit_card_key : Key
credit_card_key = "credit-card" ∷ []

abbrev pub card_status_key : Key
card_status_key = "credit-card" ∷ "status" ∷ []

abbrev pub card_history_key : Key
card_history_key = "credit-card" ∷ "status" ∷ "history" ∷ []

abbrev pub latest_prices_key : Key
latest_prices_key = "prices" ∷ "latest" ∷ []

abbrev pub instrument_prices_key : String → Key
instrument_prices_key instrument_id = "prices" ∷ instrument_id ∷ []

abbrev pub problem_patterns_key : Key
problem_patterns_key = "feature-flags" ∷ "problem-patterns" ∷ []

abbrev pub config_key : Key
config_key = "feature-flags" ∷ "config" ∷ []

abbrev pub flags_key : Key
flags_key = "feature-flags" ∷ []

abbrev pub versions_key : Key
versions_key = "versions" ∷ []

module _ {C V : Type 0} (client : QueryClient C V) where
  unfoldable pub transaction_invalidate_query : C → C
  transaction_invalidate_query c = client.invalidate_queries transactions_key c

  unfoldable pub logout_invalidate_query : C → C
  logout_invalidate_query c = client.remove_queries credit_card_key (
      client.remove_queries balance_key (
        client.remove_queries current_user_key
          (client.remove_queries instruments_key (client.remove_queries transactions_key c))))

  unfoldable pub quick_transaction_invalidate_query : C → C
  quick_transaction_invalidate_query c =
      client.invalidate_queries instruments_key (client.invalidate_queries balance_key c)

  unfoldable pub balance_invalidate_query : C → C
  balance_invalidate_query c = client.invalidate_queries balance_key c

  unfoldable pub new_card_order_invalidate_query : C → C
  new_card_order_invalidate_query c = client.invalidate_queries card_status_key c

  unfoldable pub delete_card_invalidate_query : C → C
  delete_card_invalidate_query c = client.invalidate_queries card_status_key c
