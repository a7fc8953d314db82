-- ===== src/Loadgen/Main/Provided.antt =====
-- Which visits the providers of src/loadgen/src/provider/getProvider.ts give, and with which
-- configuration the load generator starts.
use mathlib.Core.Option.{none-ne-some, some-injective, map-eq-some_iff, bind-eq-some_iff}
use mathlib.Core.Option
use mathlib.Core.Path.{subst}
use mathlib.Core.List.{Mem, mem-cons_self, mem-cast, mem-cons_of_mem}
use easytrade.Base.{ℕ, zero, suc, ◌≡◌, refl, sym, ap, ◌∙◌, String, Option, none, some, List, []}
use easytrade.Base.{◌∷◌}
use easytrade.Base.{◌⊎◌, inl, inr, get_elem?, arith}
use easytrade.Base.Result.{Result, ok, err, ◌>>=◌}
use easytrade.Loadgen.Numbers.{Floats}
use easytrade.Loadgen.User.{User, get_random_user, array_random}
use easytrade.Loadgen.Provider.{RegularVisits, VisitsConfig, Visit, regular_visit, rare_visit}
use easytrade.Loadgen.Provider.{load_factor}
use easytrade.Loadgen.Config.{
  EnvConfig, Config, ProviderConfig, constant, nyse, get_config, get_visits_config,
}
use easytrade.Loadgen.Main.{ProviderLibrary, Draws, get_provider, get_regular_provider_function}
use easytrade.Loadgen.Main.{get_rare_provider_function, LoadgenOptions, main, minute}
use easytrade.Loadgen.Main.{priority_provider, loadgen_options}

module _ {N P : Type 0} (Provides : P → Visit N → Type 0) where
  abbrev pub AnyProvides : List P → Visit N → Type 0
  AnyProvides [] v = ⊥
  AnyProvides (p ∷ ps) v = Provides p v ⊎ AnyProvides ps v

  -- What the code relies on: a visit that a provider gives comes from one of the functions that it
  -- was made of, by way of the providers that it wraps.
  pub record IsProviderLibrary (lib : ProviderLibrary N P) : Type 0 where
    pub weighted :
        (weights : List (RegularVisits × N)) (f : RegularVisits → Draws → Option (Visit N))
        (v : Visit N)
        → Provides (lib.weighted weights f) v
        → (name : RegularVisits) × (draws : Draws) × (f name draws ≡ some v)
    pub function_provider :
        (f : Draws → Option (Visit N)) (v : Visit N)
        → Provides (lib.function_provider f) v
        → (draws : Draws) × (f draws ≡ some v)
    pub interval : (p : P) (t : N) (v : Visit N) → Provides (lib.interval p t) v → Provides p v
    pub priority : (ps : List P) (v : Visit N) → Provides (lib.priority ps) v → AnyProvides ps v
    pub rate_limited :
        (p : P) (v : Visit N) {span factor learn logger : _}
        → Provides (lib.rate_limited p span factor learn logger) v
        → Provides p v

get_elem?-Mem : {A : Type 0} (xs : List A) (i : ℕ) (x : A) → get_elem? xs i ≡ some x → Mem x xs
get_elem?-Mem [] i x e = absurd (none-ne-some x e)
get_elem?-Mem (y ∷ xs) zero x e = mem-cast (sym (some-injective y x e)) mem-cons_self
get_elem?-Mem (y ∷ xs) (suc i) x e = mem-cons_of_mem y (get_elem?-Mem xs i x e)

-- The visits that the configuration leads to, with the user that makes them.
pub data IsPlanned {N : Type 0} (n : Floats N) (config : VisitsConfig N) (user : User)
    : Visit N → Type 0 where
  is_regular : (name : RegularVisits) → IsPlanned n config user (regular_visit n config user name)
  is_rare : (card_type : String) → IsPlanned n config user (rare_visit n config user card_type)

pub get_visits_config-url :
    {N E : Type 0} (n : Floats N) (env : EnvConfig N E) (c : VisitsConfig N)
    → get_visits_config n env ≡ ok c
    → env.ensure_url "EASYTRADE_URL" ≡ ok c.easytrade_url
unfolding get_visits_config
get_visits_config-url n env c e = grind arith

pub get_config-visits_config :
    {N E : Type 0} (n : Floats N) (env : EnvConfig N E) (c : Config N)
    → get_config n env ≡ ok c
    → get_visits_config n env ≡ ok c.visits_config
unfolding get_config
get_config-visits_config n env c e = grind arith

array_random-Mem :
    {A : Type 0} (pick : ℕ → ℕ) (xs : List A) (x : A) → array_random pick xs ≡ some x → Mem x xs
unfolding array_random
array_random-Mem pick [] x e = absurd (none-ne-some x e)
array_random-Mem pick (y ∷ xs) x e = get_elem?-Mem (y ∷ xs) _ x e

module _ {N : Type 0} (n : Floats N) (users : List User) where
  abbrev Planned : Config N → Visit N → Type 0
  Planned config v = (user : User) × Mem user users × IsPlanned n config.visits_config user v

  regular-Planned :
      (config : Config N) (name : RegularVisits) (draws : Draws) (v : Visit N)
      → get_regular_provider_function n users config name draws ≡ some v
      → Planned config v
  unfolding get_regular_provider_function get_random_user
  regular-Planned config name draws v e =
      let (user, drawn, made) = (map-eq-some_iff _ _).0 e in
      (
        user,
        array_random-Mem draws.user users user drawn,
        subst (IsPlanned n config.visits_config user) made (is_regular name),
      )

  rare-Planned :
      (config : Config N) (draws : Draws) (v : Visit N)
      → get_rare_provider_function n users config draws ≡ some v
      → Planned config v
  unfolding get_rare_provider_function get_random_user
  rare-Planned config draws v e =
      let (user, drawn, e₁) = (bind-eq-some_iff _ _).0 e in
      let (card_type, _, made) = (map-eq-some_iff _ _).0 e₁ in
      (
        user,
        array_random-Mem draws.user users user drawn,
        subst (IsPlanned n config.visits_config user) made (is_rare card_type),
      )

  module _ {P : Type 0} (lib : ProviderLibrary N P) where
    pub main-get_config :
        {E : Type 0} (env : EnvConfig N E) (options : LoadgenOptions N P)
        → main n users lib env ≡ ok (some options)
        → (config : Config N) × (get_config n env ≡ ok config)
          × (get_provider n users lib config ≡ some options.visit_provider)
    unfolding main
    main-get_config {E} env options e = after (get_config n env) e
      where
        after :
            (m : Result E (Config N))
            → (m >>= λ c. ok (Option.map (loadgen_options n c) (get_provider n users lib c)))
              ≡ ok (some options)
            → (c : Config N) × (m ≡ ok c)
              × (get_provider n users lib c ≡ some options.visit_provider)
        after (ok c) e =
            let e₁ : Option.map (loadgen_options n c) (get_provider n users lib c) ≡ some options =
              cc in
            let (p, given, made) = (map-eq-some_iff _ _).0 e₁ in
            (c, refl, given ∙ ap some (ap (λ o. o.visit_provider) made))
        after (err x) e = grind arith

    module _ (Provides : P → Visit N → Type 0) (documented : IsProviderLibrary Provides lib) where
      priority-Planned :
          (config : Config N) (v : Visit N)
          → Provides (priority_provider n users lib config) v
          → Planned config v
      priority-Planned config v given = elim (documented.priority _ v given) [
        | inl rare ↦
            let (draws, e) = documented.function_provider _ v (documented.interval _ _ v rare) in
            rare-Planned config draws v e
        | inr (inl regular) ↦
            let (name, draws, e) = documented.weighted _ _ v regular in
            regular-Planned config name draws v e
        | inr (inr nothing) ↦ absurd nothing
      ]

      pub get_provider-Planned :
          (config : Config N) (p : P) (v : Visit N)
          → get_provider n users lib config ≡ some p
          → Provides p v
          → Planned config v
      unfolding get_provider
      get_provider-Planned config p v e given = limited config.provider_config refl
        where
          limited : (o : Option (ProviderConfig N)) → config.provider_config ≡ o → Planned config v
          limited none same = grind arith
          limited (some constant) same =
              let made : p ≡ priority_provider n users lib config = grind arith in
              priority-Planned config v (subst (λ q. Provides q v) made given)
          limited (some (nyse learn off minutes)) same =
              let made : p
                  ≡ lib.rate_limited (priority_provider n users lib config)
                      (record { unit = minute; quantity = minutes })
                      (load_factor (n.decimal 1 0) off) learn
                      (record { name = "provider"; log_level = some config.log_level }) =
                grind arith in
              priority-Planned config v
                (documented.rate_limited _ v (subst (λ q. Provides q v) made given))
