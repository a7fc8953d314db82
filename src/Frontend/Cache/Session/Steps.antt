-- ===== src/Frontend/Cache/Session/Steps.antt =====
-- The runs of a session: a step relation over the operations of Cache.Session, which are those of
-- src/frontend/src/contexts and components/AppHeader/UserPanel.tsx.
use easytrade.Base.{String, Option, none, some, ◌≡◌, string_eq}
use easytrade.Base.Result.{ok}
use easytrade.Frontend.Queries.{Key}
use easytrade.Frontend.Auth.{AuthState, LoginResponse, LogoutResponse, proceed, login}
use easytrade.Frontend.Auth.{default_login, public_layout}
use easytrade.Frontend.Cache.{QueryCache, Providers}
use easytrade.Frontend.Cache.Session.{UserQuery, PublicQuery, App, observe_user, observe_public}
use easytrade.Frontend.Cache.Session.{load_public, open_page, mounted, fetched, log_out}
use easytrade.Frontend.Cache.Session.Keeps.{Holds}

module _ {E C V : Type 0} (cache : QueryCache E C V) (Belongs : String → V → Type 0) where
  -- The answers of the services for a user are that user's.
  abbrev pub IsHonest : Providers E V → Type 0
  IsHonest p =
      (q : UserQuery) (u : String) (v : V)
      → (observe_user p q u none).params.query_fn ≡ ok v
      → Belongs u v

  -- Data that whoever is logged in may see: nobody's if nobody is.
  abbrev pub Owned : AuthState → V → Type 0
  Owned none v = ⊥
  Owned (some u) v = Belongs u v

  abbrev pub IsOwned : App C → Type 0
  IsOwned s = Holds cache (Owned s.user) s.cache

  -- What can happen. The pages for a log-in are those of `PublicLayout`; a log-out is not answered
  -- with a message and an error at once; only the pages of a user who is logged in have hooks for data of a user,
  -- with what their loaders gave for this user as initial data.
  pub data Step (s : App C) : App C → Type 0 where
    log_in :
        (response : LoginResponse)
        → public_layout s.user ≡ proceed tt
        → Step s (record s { user = login response s.user })
    log_in_default :
        (id : String)
        → public_layout s.user ≡ proceed tt
        → Step s (record s { user = default_login id s.user })
    leave :
        (response : LogoutResponse)
        → ((e : String) → response.error ≡ some e → response.message ≡ none)
        → Step s (log_out cache response s)
    visit : (q : UserQuery) (p : Providers E V) → IsHonest p → Step s (open_page cache q p s).1
    visit_public :
        (q : PublicQuery) (p : Providers E V)
        → Step s (record s { cache = load_public cache q p s.cache })
    begin_hook :
        (q : UserQuery) (p : Providers E V) (u : String) (initial : Option V)
        → s.user ≡ some u
        → ((v : V) → initial ≡ some v → Belongs u v)
        → Step s (record s { cache = mounted cache (observe_user p q u initial) s.cache })
    fetch_hook :
        (q : UserQuery) (p : Providers E V) (u : String)
        → s.user ≡ some u
        → IsHonest p
        → Step s (record s { cache = fetched cache (observe_user p q u none) s.cache })
    begin_public_hook :
        (q : PublicQuery) (p : Providers E V) (initial : Option V)
        → Step s (record s { cache = mounted cache (observe_public p q initial) s.cache })
    fetch_public_hook :
        (q : PublicQuery) (p : Providers E V)
        → Step s (record s { cache = fetched cache (observe_public p q none) s.cache })
    invalidate : (k : Key) → Step s (record s { cache = cache.client.invalidate_queries k s.cache })
    reload :
        (fresh : C)
        → ((k : Key) → cache.client.get k fresh ≡ none)
        → Step s (record s { cache = fresh })

  -- Any run from the start of the program: the stored user and an empty cache.
  pub data Reach : App C → Type 0 where
    start :
        (u : AuthState) (fresh : C)
        → ((k : Key) → cache.client.get k fresh ≡ none)
        → Reach (record { user = u; cache = fresh })
    later : {s t : App C} → Reach s → Step s t → Reach t
