-- ===== src/Frontend/Queries/Laws.antt =====
-- What is left in the cache after a logout, and what is loaded again after a change.
use easytrade.Base.{◌≡◌, refl, ◌∙◌, String, Bool, true, false, none, List, [], ◌∷◌, All, ◌&&◌}
use easytrade.Base.{◌==◌, string_eq}
use easytrade.Frontend.Queries.{
  Key, QueryClient, transactions_key, instruments_key, preset_users_key,
}
use easytrade.Frontend.Queries.{current_user_key, balance_key, credit_card_key, card_status_key}
use easytrade.Frontend.Queries.{
  card_history_key, latest_prices_key, instrument_prices_key, config_key,
}
use easytrade.Frontend.Queries.{logout_invalidate_query, new_card_order_invalidate_query}
use easytrade.Frontend.Queries.{delete_card_invalidate_query, quick_transaction_invalidate_query}

unfoldable pub is_prefix : Key → Key → Bool
is_prefix [] k = true
is_prefix (a ∷ p) [] = false
is_prefix (a ∷ p) (b ∷ k) = a == b && is_prefix p k

-- What the package documents: removing and invalidating apply to the keys that begin with the given
-- one, and to no other.
pub record IsClient {C V : Type 0} (client : QueryClient C V) : Type 0 where
  pub get_removed :
      (p k : Key) (c : C) → is_prefix p k ≡ true → client.get k (client.remove_queries p c) ≡ none
  pub get_kept :
      (p k : Key) (c : C)
      → is_prefix p k ≡ false
      → client.get k (client.remove_queries p c) ≡ client.get k c
  pub is_fresh_invalidated :
      (p k : Key) (c : C)
      → is_prefix p k ≡ true
      → client.is_fresh k (client.invalidate_queries p c) ≡ false
  pub is_fresh_kept :
      (p k : Key) (c : C)
      → is_prefix p k ≡ false
      → client.is_fresh k (client.invalidate_queries p c) ≡ client.is_fresh k c

-- The keys of data that belong to the user who is logged in.
abbrev pub user_data : List Key
user_data =
    transactions_key ∷ instruments_key ∷ current_user_key ∷ balance_key ∷ card_status_key
    ∷ card_history_key ∷ []

module _ {C V : Type 0} (client : QueryClient C V) (laws : IsClient client) where
  open laws use {get_removed, get_kept, is_fresh_invalidated, is_fresh_kept}

  -- A key that none of the five removals reaches.
  logout-kept :
      (k : Key) (c : C)
      → is_prefix transactions_key k ≡ false
      → is_prefix instruments_key k ≡ false
      → is_prefix current_user_key k ≡ false
      → is_prefix balance_key k ≡ false
      → is_prefix credit_card_key k ≡ false
      → client.get k (logout_invalidate_query client c) ≡ client.get k c
  unfolding logout_invalidate_query
  logout-kept k c t i u b d =
      get_kept credit_card_key k _ d
      ∙ get_kept balance_key k _ b
      ∙ get_kept current_user_key k _ u
      ∙ get_kept instruments_key k _ i
      ∙ get_kept transactions_key k c t

  -- A logout removes all data of the user from the cache and keeps what all users share: the preset
  -- users, the prices and the feature flags.
  pub logout_invalidate_query_lem :
      (c : C)
      → let after = logout_invalidate_query client c in
        All (λ k. client.get k after ≡ none) user_data
        × (client.get preset_users_key after ≡ client.get preset_users_key c)
        × (client.get latest_prices_key after ≡ client.get latest_prices_key c)
        × ((id : String)
            → client.get (instrument_prices_key id) after ≡ client.get (instrument_prices_key id) c)
        × (client.get config_key after ≡ client.get config_key c)
  unfolding logout_invalidate_query is_prefix string_eq
  logout_invalidate_query_lem c = (
    (
      get_kept credit_card_key transactions_key _ refl
          ∙ get_kept balance_key transactions_key _ refl
          ∙ get_kept current_user_key transactions_key _ refl
          ∙ get_kept instruments_key transactions_key _ refl
          ∙ get_removed transactions_key transactions_key c refl,
      (
        get_kept credit_card_key instruments_key _ refl
            ∙ get_kept balance_key instruments_key _ refl
            ∙ get_kept current_user_key instruments_key _ refl
            ∙ get_removed instruments_key instruments_key _ refl,
        (
          get_kept credit_card_key current_user_key _ refl
              ∙ get_kept balance_key current_user_key _ refl
              ∙ get_removed current_user_key current_user_key _ refl,
          (
            get_kept credit_card_key balance_key _ refl
                ∙ get_removed balance_key balance_key _ refl,
            (
              get_removed credit_card_key card_status_key _ refl,
              (get_removed credit_card_key card_history_key _ refl, tt),
            ),
          ),
        ),
      ),
    ),
    logout-kept preset_users_key c refl refl refl refl refl,
    logout-kept latest_prices_key c refl refl refl refl refl,
    λ id. logout-kept (instrument_prices_key id) c refl refl refl refl refl,
    logout-kept config_key c refl refl refl refl refl,
  )

  card_stale :
      (k : Key) (c : C)
      → is_prefix card_status_key k ≡ true
      → (client.is_fresh k (new_card_order_invalidate_query client c) ≡ false)
        × (client.is_fresh k (delete_card_invalidate_query client c) ≡ false)
  unfolding new_card_order_invalidate_query delete_card_invalidate_query
  card_stale k c h =
      (is_fresh_invalidated card_status_key k c h, is_fresh_invalidated card_status_key k c h)

  card_kept :
      (k : Key) (c : C)
      → is_prefix card_status_key k ≡ false
      → (client.is_fresh k (new_card_order_invalidate_query client c) ≡ client.is_fresh k c)
        × (client.is_fresh k (delete_card_invalidate_query client c) ≡ client.is_fresh k c)
  unfolding new_card_order_invalidate_query delete_card_invalidate_query
  card_kept k c h = (is_fresh_kept card_status_key k c h, is_fresh_kept card_status_key k c h)

  -- A key that neither of two invalidations reaches.
  both_kept :
      (p q k : Key) (c : C)
      → is_prefix p k ≡ false
      → is_prefix q k ≡ false
      → client.is_fresh k (client.invalidate_queries p (client.invalidate_queries q c))
        ≡ client.is_fresh k c
  both_kept p q k c f g = is_fresh_kept p k _ f ∙ is_fresh_kept q k c g

  -- A quick trade makes the balance and the instruments stale, an order or a revocation of a card
  -- the status and the history of the order, and no other data of the user.
  invalidate_queries_lem :
      (c : C)
      → let traded = quick_transaction_invalidate_query client c in
        let ordered = new_card_order_invalidate_query client c in
        let revoked = delete_card_invalidate_query client c in
        All (λ k. client.is_fresh k traded ≡ false) (balance_key ∷ instruments_key ∷ [])
        × All
            (λ k. client.is_fresh k traded ≡ client.is_fresh k c)
            (transactions_key ∷ current_user_key ∷ card_status_key ∷ card_history_key ∷ [])
        × All
            (λ k. (client.is_fresh k ordered ≡ false) × (client.is_fresh k revoked ≡ false))
            (card_status_key ∷ card_history_key ∷ [])
        × All
            (λ k.
              (client.is_fresh k ordered ≡ client.is_fresh k c)
              × (client.is_fresh k revoked ≡ client.is_fresh k c))
            (transactions_key ∷ instruments_key ∷ current_user_key ∷ balance_key ∷ [])
  unfolding quick_transaction_invalidate_query new_card_order_invalidate_query
      delete_card_invalidate_query is_prefix string_eq
  invalidate_queries_lem c = (
    (
      is_fresh_kept instruments_key balance_key _ refl
          ∙ is_fresh_invalidated balance_key balance_key c refl,
      (is_fresh_invalidated instruments_key instruments_key _ refl, tt),
    ),
    (
      both_kept instruments_key balance_key transactions_key c refl refl,
      (
        both_kept instruments_key balance_key current_user_key c refl refl,
        (
          both_kept instruments_key balance_key card_status_key c refl refl,
          (both_kept instruments_key balance_key card_history_key c refl refl, tt),
        ),
      ),
    ),
    (card_stale card_status_key c refl, (card_stale card_history_key c refl, tt)),
    (
      card_kept transactions_key c refl,
      (
        card_kept instruments_key c refl,
        (card_kept current_user_key c refl, (card_kept balance_key c refl, tt)),
      ),
    ),
  )
