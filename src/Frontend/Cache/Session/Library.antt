-- ===== src/Frontend/Cache/Session/Library.antt =====
-- What the package @tanstack/react-query documents of its cache, as the loaders and hooks of
-- src/frontend/src/contexts/QueryContext rely on it.
use easytrade.Base.{none, some, ◌≡◌, Bool, true, false, [], ◌∷◌, ◌&&◌, ◌==◌, string_eq}
use easytrade.Base.{if◌then◌else◌}
use easytrade.Base.Result.{Result, ok, err}
use easytrade.Frontend.Queries.{Key}
use easytrade.Frontend.Queries.Laws.{IsClient}
use easytrade.Frontend.Cache.{QueryCache}

abbrev pub same_key : Key → Key → Bool
same_key [] [] = true
same_key [] (_ ∷ _) = false
same_key (_ ∷ _) [] = false
same_key (a ∷ k) (b ∷ j) = a == b && same_key k j

-- What the package documents of the operations, as far as the cached data go: `ensureQueryData`
-- gives those that there are and else fetches and keeps them, initial data are kept only if there are
-- none, and invalidated data stay until they are fetched again.
pub record IsCache {E C V : Type 0} (cache : QueryCache E C V) : Type 0 where
  pub laws : IsClient cache.client
  pub get-set :
      (k j : Key) (v : V) (c : C)
      → cache.client.get j (cache.set_query_data k v c)
        ≡ (if same_key k j then some v else cache.client.get j c)
  pub ensure_found :
      (k : Key) (r : Result E V) (c : C) (v : V)
      → cache.client.get k c ≡ some v
      → ((cache.ensure_query_data k r c).0 ≡ ok v)
        × ((j : Key) → cache.client.get j (cache.ensure_query_data k r c).1 ≡ cache.client.get j c)
  pub ensure_fetched :
      (k : Key) (v : V) (c : C)
      → cache.client.get k c ≡ none
      → ((cache.ensure_query_data k (ok v) c).0 ≡ ok v)
        × ((j : Key)
            → cache.client.get j (cache.ensure_query_data k (ok v) c).1
              ≡ (if same_key k j then some v else cache.client.get j c))
  pub ensure_failed :
      (k : Key) (e : E) (c : C)
      → cache.client.get k c ≡ none
      → ((cache.ensure_query_data k (err e) c).0 ≡ err e)
        × ((j : Key)
            → cache.client.get j (cache.ensure_query_data k (err e) c).1 ≡ cache.client.get j c)
  pub mount_found :
      (k j : Key) (v w : V) (c : C)
      → cache.client.get k c ≡ some w
      → cache.client.get j (cache.mount k v c) ≡ cache.client.get j c
  pub mount_new :
      (k j : Key) (v : V) (c : C)
      → cache.client.get k c ≡ none
      → cache.client.get j (cache.mount k v c)
        ≡ (if same_key k j then some v else cache.client.get j c)
  pub get-invalidate :
      (p k : Key) (c : C)
      → cache.client.get k (cache.client.invalidate_queries p c) ≡ cache.client.get k c
