-- ===== src/Offer/Plugin/Laws.antt =====
-- When a request for offers is delayed.
use mathlib.Core.List.{Perm}
use easytrade.Base.{ℕ, ◌≡◌, refl, String, Bool, true, false}
use easytrade.Base.{List, [], ◌∷◌, string_eq, option_eq, arith, ◌↔◌, ◌⊎◌, length}
use easytrade.Base.{inl, inr, Bool-cases, sym, ◌∙◌, ◌<>◌}
use easytrade.Base.Result.{Result, ok, Result-cases}
use easytrade.Offer.Sample.Laws.{sample_array-perm}
use easytrade.Offer.Plugin.{
  FeatureFlag, get_flag, resolve_boolean, Slowdown, plugin_name, platforms,
}
use easytrade.Offer.Plugin.{slowdown_plugin, is_platform_affected, delay, next}
use easytrade.Offer.Plugin.{plugin_runner, run}

pair_of : {A : Type 0} (xs : List A) → length xs ≡ 2 → (a : A) × (b : A) × (xs ≡ a ∷ b ∷ [])
pair_of [] e = absurd (omega arith)
pair_of (a ∷ []) e = absurd (omega arith)
pair_of (a ∷ b ∷ []) e = (a, b, refl)
pair_of (a ∷ b ∷ c ∷ xs) e = absurd (omega arith)

-- Whatever is drawn, two of the five platforms are sampled, and exactly these two are affected.
slowdown_plugin-platforms :
    (pick : ℕ → ℕ)
    → (a : String) × (b : String) × (rest : List String) × Perm (a ∷ b ∷ rest) platforms
      × ((p : String)
          → (is_platform_affected (slowdown_plugin pick) p ≡ true) ↔ ((p ≡ a) ⊎ (p ≡ b)))
unfolding slowdown_plugin is_platform_affected option_eq
slowdown_plugin-platforms pick =
    let (drawn, rest, sampled, two, perm) = sample_array-perm pick platforms 2 (omega arith) in
    let (a, b, same) = pair_of drawn two in
    (a, b, rest, rw same at perm, λ p. rw (sampled, same) (ground arith))

module _ {F : Type 0} (flags_url : String) (get : String → Result F FeatureFlag) where
  -- The flag service as the provider sees it.
  abbrev pub resolved : String → Bool → Bool
  resolved = resolve_boolean (get_flag flags_url get)

  -- The flag service answers with a flag that is enabled.
  abbrev pub IsEnabled : Type 0
  IsEnabled =
      (flag : FeatureFlag) × (get (flags_url <> "/" <> "ergo_aggregator_slowdown") ≡ ok flag)
      × (flag.enabled ≡ true)

  resolved-IsEnabled : (resolved plugin_name false ≡ true) ↔ IsEnabled
  unfolding resolve_boolean get_flag
  resolved-IsEnabled = elim (Result-cases (get (flags_url <> "/" <> plugin_name))) [
    | inl (flag, found) ↦
        (λ on. (flag, found, ground (arith, found, on)), λ (same, got, on). ground (arith, got, on))
    | inr (e, failed) ↦ (
      λ on. absurd (ground (arith, failed, on)),
      λ (flag, got, on). absurd (ground (arith, failed, got)),
    )
  ]

  -- A request, by the flag and by whether its platform is affected.
  runs :
      (client : String → Bool → Bool) (plugin : Slowdown) (p : String) {A : Type 0}
      → client plugin_name false ≡ resolved plugin_name false
      → (is_platform_affected plugin p ≡ true) ↔ A
      → let effects = plugin_runner client plugin p in
        ((effects ≡ delay plugin.delay_ms ∷ next ∷ []) ↔ (IsEnabled × A))
        × (¬ (IsEnabled × A) → effects ≡ next ∷ [])
  unfolding plugin_runner run
  runs client plugin p follows affects = elim (Bool-cases (client plugin_name false)) [
    | inl on ↦
        let enabled = resolved-IsEnabled.0 (sym follows ∙ on) in
        elim (Bool-cases (is_platform_affected plugin p)) [
          | inl hit ↦
              rw (on, hit)
                (
                  (λ _. (enabled, affects.0 hit), λ _. refl),
                  λ other. absurd (other (enabled, affects.0 hit)),
                )
          | inr miss ↦
              rw (on, miss)
                (
                  (
                    λ e. absurd (ground (arith, e)),
                    λ (_, a). absurd (ground (arith, miss, affects.1 a)),
                  ),
                  λ _. refl,
                )
        ]
    | inr off ↦ rw off (
      (
        λ e. absurd (ground (arith, e)),
        λ (enabled, _). absurd (ground (arith, off, follows, resolved-IsEnabled.1 enabled)),
      ),
      λ _. refl,
    )
  ]

  -- Whatever is drawn at the start, two of the five platforms are affected. With a client that
  -- gives what the provider resolves, a request for offers of a platform waits exactly if the flag
  -- service answers with an enabled flag and the platform is one of the two: it then waits once,
  -- for two seconds, and `next` is called. In every other case `next` is called at once.
  pub plugin_runner-delays :
      (client : String → Bool → Bool) (pick : ℕ → ℕ)
      → ((key : String) (d : Bool) → client key d ≡ resolved key d)
      → (a : String) × (b : String) × (rest : List String) × Perm (a ∷ b ∷ rest) platforms
        × ((p : String)
            → let effects = plugin_runner client (slowdown_plugin pick) p in
              ((effects ≡ delay 2000 ∷ next ∷ []) ↔ (IsEnabled × ((p ≡ a) ⊎ (p ≡ b))))
              × (¬ (IsEnabled × ((p ≡ a) ⊎ (p ≡ b))) → effects ≡ next ∷ []))
  unfolding slowdown_plugin
  plugin_runner-delays client pick follows =
      let (a, b, rest, perm, affects) = slowdown_plugin-platforms pick in
      (
        a,
        b,
        rest,
        perm,
        λ p. runs client (slowdown_plugin pick) p (follows plugin_name false) (affects p),
      )
