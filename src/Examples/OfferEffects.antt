-- ===== src/Examples/OfferEffects.antt =====
-- Samples, plugins and signups of the offer service (src/offerservice/src) on concrete draws and
-- replies.
use mathlib.Core.List.{Perm}
use easytrade.Base.{◌≡◌, refl, ◌≢◌, ◌↔◌, ◌⊎◌, String, true}
use easytrade.Base.{some, List, [], ◌∷◌, ◌++◌, map, arith, string_eq}
use easytrade.Base.{option_eq, length}
use easytrade.Base.Result.{Result, ok, err}
use easytrade.Offer.Sample.{sample_array}
use easytrade.Offer.Sample.Laws.{sample_array-perm}
use easytrade.Offer.Plugin.{FeatureFlag, plugin_runner, platforms, slowdown_plugin, delay, next}
use easytrade.Offer.Plugin.Laws.{resolved, IsEnabled, plugin_runner-delays}
use easytrade.Offer.Signup.{Thrown, axios_error, payload, sign_up_new_user}
use easytrade.Offer.Signup.Laws.{sign_up_new_user-created}
use easytrade.Offer.Signup.Laws.{reply_status}

abbrev letters : List String
letters = "a" ∷ "b" ∷ "c" ∷ []

sample_array-perm_example :
    (drawn : List String) × (rest : List String) × (sample_array (λ _. 0) letters 2
      ≡ map some drawn)
    × (length drawn ≡ 2)
    × Perm (drawn ++ rest) letters
sample_array-perm_example = sample_array-perm (λ _. 0) letters 2 (omega arith)

abbrev slowdown_flag : FeatureFlag
slowdown_flag = record {
  id = "ergo_aggregator_slowdown";
  enabled = true;
  name = "Ergo aggregator slowdown";
  description = "";
  is_modifiable = true;
  tag = "problem_pattern";
}

abbrev answer_flag : String → Result (Unit {0}) FeatureFlag
answer_flag _ = ok slowdown_flag

plugin_runner-delays_example :
    (a : String) × (b : String) × (rest : List String) × Perm (a ∷ b ∷ rest) platforms
    × ((p : String)
        → let effects =
            plugin_runner (resolved "http://flags" answer_flag) (slowdown_plugin (λ _. 0)) p in
          ((effects ≡ delay 2000 ∷ next ∷ [])
            ↔ (IsEnabled "http://flags" answer_flag × ((p ≡ a) ⊎ (p ≡ b))))
          × (¬ (IsEnabled "http://flags" answer_flag × ((p ≡ a) ⊎ (p ≡ b))) → effects ≡ next ∷ []))
plugin_runner-delays_example =
    plugin_runner-delays "http://flags" answer_flag (resolved "http://flags" answer_flag) (λ _. 0)
      (λ _ _. refl)

abbrev conflict : Thrown String
conflict = axios_error (some (record { status = 409; payload = some "exists" })) "conflict"

-- A login service that knows the account already, as its client reports it.
abbrev refuse : String → String → Result (Thrown String) String
refuse url body = err conflict

abbrev accept : String → String → Result (Thrown String) String
accept url body = ok "created"

conflict_not_created :
    (e : Thrown String) → refuse "http://login" "new" ≡ err e → reply_status e ≢ some 201
conflict_not_created e failed = ground arith

sign_up_new_user-created_example :
    let answer = sign_up_new_user (ok "http://login") refuse "new" in
    ((answer.status ≡ 201) ↔ ((d : String) × (refuse "http://login" "new" ≡ ok d)))
    × ((d : String)
        → refuse "http://login" "new" ≡ ok d
        → answer ≡ record { status = 201; body = payload d })
sign_up_new_user-created_example =
    sign_up_new_user-created "http://login" refuse "new" conflict_not_created
