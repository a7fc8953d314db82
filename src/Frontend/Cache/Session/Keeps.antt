-- ===== src/Frontend/Cache/Session/Keeps.antt =====
-- What each operation of the cache keeps of the data of a user: the loaders and hooks of
-- src/frontend/src/contexts/QueryContext over the laws of the library.
use mathlib.Core.Path.{subst}
use easytrade.Base.{some, ◌≡◌, sym, ◌∙◌, true, inl, inr, arith, string_eq, Bool-cases, Option-cases}
use easytrade.Base.{if◌then◌else◌}
use easytrade.Base.Result.{Result, ok, Result-cases}
use easytrade.Frontend.Queries.{Key}
use easytrade.Frontend.Cache.{QueryCache, Observer}
use easytrade.Frontend.Cache.Session.{UserQuery, user_key, mounted, fetched}
use easytrade.Frontend.Cache.Session.Library.{same_key, IsCache}

module _ {E C V : Type 0} (cache : QueryCache E C V) where
  -- All that the cache has for the six queries of a user meets a predicate.
  abbrev pub Holds : (V → Type 0) → C → Type 0
  Holds P c = (q : UserQuery) (v : V) → cache.client.get (user_key q) c ≡ some v → P v

module _ {E C V : Type 0} (cache : QueryCache E C V) (laws : IsCache cache) where
  open laws use {
    get-set, ensure_found, ensure_fetched, ensure_failed, mount_found, mount_new, get-invalidate,
  }

  module _ (P : V → Type 0) where
    pub kept :
        (c c' : C)
        → ((j : Key) → cache.client.get j c' ≡ cache.client.get j c)
        → Holds cache P c
        → Holds cache P c'
    kept c c' same h q v e = h q v (sym (same (user_key q)) ∙ e)

    pub stored :
        (k : Key) (v : V) (c c' : C)
        → ((j : Key)
            → cache.client.get j c' ≡ (if same_key k j then some v else cache.client.get j c))
        → ((q : UserQuery) → same_key k (user_key q) ≡ true → P v)
        → Holds cache P c
        → Holds cache P c'
    stored k v c c' set p h q w e = elim (Bool-cases (same_key k (user_key q))) [
      | inl same ↦ let found : v ≡ w = ground (arith, set (user_key q)) in subst P found (p q same)
      | inr other ↦ h q w (ground (arith, set (user_key q)))
    ]

    pub ensured :
        (k : Key) (r : Result E V) (c : C)
        → ((q : UserQuery) (v : V) → same_key k (user_key q) ≡ true → r ≡ ok v → P v)
        → Holds cache P c
        → Holds cache P (cache.ensure_query_data k r c).1
    ensured k r c p h = elim (Option-cases (cache.client.get k c)) [
      | inr (v, e) ↦ kept c _ (ensure_found k r c v e).1 h
      | inl e ↦ elim (Result-cases r) [
        | inl (v, f) ↦ rw f (stored k v c _ (ensure_fetched k v c e).1 (λ q same. p q v same f) h)
        | inr (x, f) ↦ rw f (kept c _ (ensure_failed k x c e).1 h)
      ]
    ]

    pub mounted-Holds :
        (o : Observer E V) (c : C)
        → ((q : UserQuery) (v : V)
            → same_key o.params.query_key (user_key q) ≡ true
            → o.initial_data ≡ some v
            → P v)
        → Holds cache P c
        → Holds cache P (mounted cache o c)
    unfolding mounted
    mounted-Holds o c p h = elim (Option-cases o.initial_data) [
      | inl e ↦ rw e h
      | inr (v, e) ↦ rw e (elim (Option-cases (cache.client.get o.params.query_key c)) [
        | inr (w, f) ↦ kept c _ (λ j. mount_found _ j v w c f) h
        | inl f ↦ stored _ v c _ (λ j. mount_new _ j v c f) (λ q same. p q v same e) h
      ])
    ]

    pub fetched-Holds :
        (o : Observer E V) (c : C)
        → ((q : UserQuery) (v : V)
            → same_key o.params.query_key (user_key q) ≡ true
            → o.params.query_fn ≡ ok v
            → P v)
        → Holds cache P c
        → Holds cache P (fetched cache o c)
    unfolding fetched
    fetched-Holds o c p h = elim (Result-cases o.params.query_fn) [
      | inl (v, e) ↦ rw e (stored _ v c _ (λ j. get-set _ j v c) (λ q same. p q v same e) h)
      | inr (_, e) ↦ rw e h
    ]
