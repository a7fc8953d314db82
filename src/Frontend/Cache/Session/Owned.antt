-- ===== src/Frontend/Cache/Session/Owned.antt =====
-- No user ever sees cached data of another one, though no key names a user: whose data are in the
-- cache is an invariant of every run of the session.
use mathlib.Core.Path.{subst}
use easytrade.Base.{String, none, some, ◌≡◌, refl, sym, ◌∙◌, ◌==◌, inl, inr, arith}
use easytrade.Base.{string_eq, Bool-cases, Option-cases}
use easytrade.Frontend.Queries.{logout_invalidate_query}
use easytrade.Frontend.Queries.Laws.{logout_invalidate_query_lem}
use easytrade.Frontend.Auth.{AuthState, LogoutResponse, proceed, logout, load_with_user}
use easytrade.Frontend.Auth.{public_layout, is_logged_in}
use easytrade.Frontend.Cache.{QueryCache, Providers}
use easytrade.Frontend.Cache.Session.{UserQuery, user_key, App, observe_user, load_user, open_page}
use easytrade.Frontend.Cache.Session.{log_out}
use easytrade.Frontend.Cache.Session.Library.{IsCache}
use easytrade.Frontend.Cache.Session.Keeps.{Holds, kept, ensured, mounted-Holds, fetched-Holds}
use easytrade.Frontend.Cache.Session.Steps.{
  IsHonest, Owned, IsOwned, Step, log_in, log_in_default, leave, visit, visit_public, begin_hook,
  fetch_hook, begin_public_hook, fetch_public_hook, invalidate, reload, Reach, start, later,
}
use easytrade.Frontend.Cache.Session.Apart.{
  each, load_user-eq, observe_user-initial_data, public_any, load_public-Holds,
}

module _ {E C V : Type 0} (cache : QueryCache E C V) (laws : IsCache cache)
    (Belongs : String → V → Type 0) where
  nobody : (u : AuthState) → public_layout u ≡ proceed tt → u ≡ none
  unfolding public_layout is_logged_in
  nobody none e = refl
  nobody (some u) e = absurd (ground arith)

  -- Who was not logged in had no data in the cache.
  log_in-Holds :
      (P : V → Type 0) (u : AuthState) (c : C)
      → public_layout u ≡ proceed tt
      → Holds cache (Owned cache Belongs u) c
      → Holds cache P c
  log_in-Holds P u c out h q v e =
      absurd (subst (λ u. Owned cache Belongs u v) (nobody u out) (h q v e))

  cleared :
      (c : C) (q : UserQuery)
      → cache.client.get (user_key q) (logout_invalidate_query cache.client c) ≡ none
  cleared c q =
      let (t, (i, (u, (b, (s, (h, _)))))) =
        (logout_invalidate_query_lem cache.client laws.laws c).0 in
      each cache laws
        (λ q. cache.client.get (user_key q) (logout_invalidate_query cache.client c) ≡ none) u b t i
        s h q

  leave-IsOwned :
      (response : LogoutResponse) (s : App C)
      → ((e : String) → response.error ≡ some e → response.message ≡ none)
      → IsOwned cache Belongs s
      → IsOwned cache Belongs (log_out cache response s)
  unfolding log_out logout
  leave-IsOwned response s apart h = elim (Option-cases response.error) [
    | inl e ↦ rw e (λ q v found. absurd (ground (arith, cleared s.cache q)))
    | inr (m, e) ↦ rw (e, apart m e) h
  ]

  visit-Holds :
      (q : UserQuery) (p : Providers E V) (u : String) (c : C)
      → IsHonest cache Belongs p
      → Holds cache (Belongs u) c
      → Holds cache (Belongs u) (load_user cache q p u c).1
  visit-Holds q p u c honest h =
      rw (load_user-eq cache laws q p u c)
        (ensured cache laws (Belongs u) _ _ c (λ r v _ e. honest q u v e) h)

  visit-IsOwned :
      (q : UserQuery) (p : Providers E V) (u : AuthState) (c : C)
      → IsHonest cache Belongs p
      → IsOwned cache Belongs (record { user = u; cache = c })
      → IsOwned cache Belongs (open_page cache q p (record { user = u; cache = c })).1
  unfolding open_page load_with_user
  visit-IsOwned q p none c honest h = h
  visit-IsOwned q p (some u) c honest h = elim (Bool-cases (u == "")) [
    | inl empty ↦ rw (empty, open_page) h
    | inr other ↦ rw (other, open_page) (visit-Holds q p u c honest h)
  ]

  as_user :
      (a : AuthState) (u : String) (c : C)
      → a ≡ some u
      → (Holds cache (Owned cache Belongs a) c → Holds cache (Belongs u) c)
        × (Holds cache (Belongs u) c → Holds cache (Owned cache Belongs a) c)
  as_user a u c same = (
    λ h q v e. subst (λ b. Owned cache Belongs b v) same (h q v e),
    λ h q v e. subst (λ b. Owned cache Belongs b v) (sym same) (h q v e),
  )

  -- Each step keeps the cache to the data of the user who is logged in.
  Step-IsOwned :
      {s t : App C} → Step cache Belongs s t → IsOwned cache Belongs s → IsOwned cache Belongs t
  Step-IsOwned {s} (log_in response out) h = log_in-Holds _ s.user s.cache out h
  Step-IsOwned {s} (log_in_default id out) h = log_in-Holds _ s.user s.cache out h
  Step-IsOwned {s} (leave response apart) h = leave-IsOwned response s apart h
  Step-IsOwned {s} (visit q p honest) h = visit-IsOwned q p s.user s.cache honest h
  Step-IsOwned {s} (visit_public q p) h =
      load_public-Holds cache laws (Owned cache Belongs s.user) q p s.cache h
  Step-IsOwned {s} (begin_hook q p u i same owns) h =
      let o = observe_user p q u i in
      (as_user s.user u _ same).1 (
        mounted-Holds cache laws (Belongs u) o s.cache
          (λ r v _ e. owns v (sym (observe_user-initial_data cache laws q p u i) ∙ e))
          ((as_user s.user u s.cache same).0 h))
  Step-IsOwned {s} (fetch_hook q p u same honest) h = (as_user s.user u _ same).1 (
      fetched-Holds cache laws (Belongs u) (observe_user p q u none) s.cache
        (λ r v _ e. honest q u v e) ((as_user s.user u s.cache same).0 h))
  Step-IsOwned {s} (begin_public_hook q p i) h =
      mounted-Holds cache laws (Owned cache Belongs s.user) _ s.cache
        (λ r v same _. public_any cache laws (Owned cache Belongs s.user) q p i r v same) h
  Step-IsOwned {s} (fetch_public_hook q p) h =
      fetched-Holds cache laws (Owned cache Belongs s.user) _ s.cache
        (λ r v same _. public_any cache laws (Owned cache Belongs s.user) q p none r v same) h
  Step-IsOwned {s} (invalidate k) h =
      kept cache laws (Owned cache Belongs s.user) s.cache _ (λ j. laws.get-invalidate k j s.cache)
        h
  Step-IsOwned {s} (reload fresh empty) h = λ q v e. absurd (ground (arith, empty (user_key q)))

  -- In every state that a run reaches, the cache holds data of the user who is logged in, and of
  -- nobody if nobody is.
  pub Reach-IsOwned : {s : App C} → Reach cache Belongs s → IsOwned cache Belongs s
  Reach-IsOwned (start u fresh empty) = λ q v e. absurd (ground (arith, empty (user_key q)))
  Reach-IsOwned (later r st) = Step-IsOwned st (Reach-IsOwned r)
