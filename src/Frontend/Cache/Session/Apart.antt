-- ===== src/Frontend/Cache/Session/Apart.antt =====
-- The queries of contexts/QueryContext of src/frontend/src one by one: each loader asks for what its
-- hook asks for, and no key of public data is one of a user's data.
use easytrade.Base.{String, Option, none, ◌≡◌, refl, true, false, arith, string_eq}
use easytrade.Frontend.Cache.{QueryCache, Providers}
use easytrade.Frontend.Cache.Session.{UserQuery, current_user, balance, transactions, instruments}
use easytrade.Frontend.Cache.Session.{card_status, card_history, user_key, PublicQuery}
use easytrade.Frontend.Cache.Session.{preset_users, latest_prices, feature_flags, versions, config}
use easytrade.Frontend.Cache.Session.{instrument_prices, observe_user, observe_public, load_user}
use easytrade.Frontend.Cache.Session.{load_public}
use easytrade.Frontend.Cache.Session.Library.{same_key, IsCache}
use easytrade.Frontend.Cache.Session.Keeps.{Holds, ensured}

module _ {E C V : Type 0} (cache : QueryCache E C V) (laws : IsCache cache) where
  pub each :
      (P : UserQuery → Type 0)
      → P current_user
      → P balance
      → P transactions
      → P instruments
      → P card_status
      → P card_history
      → (q : UserQuery) → P q
  each P a b c d e f current_user = a
  each P a b c d e f balance = b
  each P a b c d e f transactions = c
  each P a b c d e f instruments = d
  each P a b c d e f card_status = e
  each P a b c d e f card_history = f

  -- A key of public data is that of no user's data.
  public_apart :
      (q : PublicQuery) (p : Providers E V) (i : Option V) (r : UserQuery)
      → same_key (observe_public p q i).params.query_key (user_key r) ≡ false
  unfolding observe_public string_eq
  public_apart preset_users p i = each _ refl refl refl refl refl refl
  public_apart latest_prices p i = each _ refl refl refl refl refl refl
  public_apart feature_flags p i = each _ refl refl refl refl refl refl
  public_apart versions p i = each _ refl refl refl refl refl refl
  public_apart config p i = each _ refl refl refl refl refl refl
  public_apart (instrument_prices id) p i = each _ refl refl refl refl refl refl

  -- A loader and a hook of the same data have the same query.
  pub load_user-eq :
      (q : UserQuery) (p : Providers E V) (u : String) (c : C)
      → load_user cache q p u c
        ≡ cache.ensure_query_data (user_key q) (observe_user p q u none).params.query_fn c
  unfolding load_user observe_user
  load_user-eq current_user p u c = refl
  load_user-eq balance p u c = refl
  load_user-eq transactions p u c = refl
  load_user-eq instruments p u c = refl
  load_user-eq card_status p u c = refl
  load_user-eq card_history p u c = refl

  pub observe_user-initial_data :
      (q : UserQuery) (p : Providers E V) (u : String) (i : Option V)
      → (observe_user p q u i).initial_data ≡ i
  unfolding observe_user
  observe_user-initial_data current_user p u i = refl
  observe_user-initial_data balance p u i = refl
  observe_user-initial_data transactions p u i = refl
  observe_user-initial_data instruments p u i = refl
  observe_user-initial_data card_status p u i = refl
  observe_user-initial_data card_history p u i = refl

  observe_public-initial_data :
      (q : PublicQuery) (p : Providers E V) (i : Option V) → (observe_public p q i).initial_data ≡ i
  unfolding observe_public
  observe_public-initial_data preset_users p i = refl
  observe_public-initial_data latest_prices p i = refl
  observe_public-initial_data feature_flags p i = refl
  observe_public-initial_data versions p i = refl
  observe_public-initial_data config p i = refl
  observe_public-initial_data (instrument_prices id) p i = refl

  -- Nothing is asked of the values of a key that is public.
  pub public_any :
      (P : V → Type 0) (q : PublicQuery) (p : Providers E V) (i : Option V) (r : UserQuery) (v : V)
      → same_key (observe_public p q i).params.query_key (user_key r) ≡ true
      → P v
  public_any P q p i r v same = absurd (ground (arith, public_apart q p i r))

  pub load_public-Holds :
      (P : V → Type 0) (q : PublicQuery) (p : Providers E V) (c : C)
      → Holds cache P c
      → Holds cache P (load_public cache q p c)
  unfolding load_public observe_public
  load_public-Holds P preset_users p c =
      ensured cache laws P _ _ c (λ r v same _. public_any P preset_users p none r v same)
  load_public-Holds P latest_prices p c =
      ensured cache laws P _ _ c (λ r v same _. public_any P latest_prices p none r v same)
  load_public-Holds P feature_flags p c =
      ensured cache laws P _ _ c (λ r v same _. public_any P feature_flags p none r v same)
  load_public-Holds P versions p c =
      ensured cache laws P _ _ c (λ r v same _. public_any P versions p none r v same)
  load_public-Holds P config p c = λ h. h
  load_public-Holds P (instrument_prices id) p c =
      ensured cache laws P _ _ c (λ r v same _. public_any P (instrument_prices id) p none r v same)
