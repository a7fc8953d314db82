-- ===== src/Frontend/FeatureFlags/Laws.antt =====
-- What the page shows: at most one flag is open, and a flag can be switched exactly when the flag
-- itself and the management flag allow it.
use easytrade.Base.{
  ◌≡◌, refl, ◌≢◌, ◌↔◌, String, Bool, true, false, Option, none, some, List, [], map,
}
use easytrade.Base.{◌∷◌, find, string_eq, arith, ◌==◌}
use easytrade.Base.Result.{Result, ok, err}
use easytrade.Frontend.FeatureFlags.{State, expand}
use easytrade.Frontend.FeatureFlags.{feedback_reducer, is_expanded, RawFeatureFlag, get_config}
use easytrade.Frontend.FeatureFlags.{modify_disabled, management_id, get_raw_config_flags}
use easytrade.Frontend.FeatureFlags.{get_config_flag}

-- A click on the header of a flag with a name opens it if it was closed and closes it if it was
-- open; every other flag with a name is closed after it.
expand-toggles :
    (s : State) (name other : String)
    → name ≢ ""
    → other ≢ ""
    → let t = feedback_reducer s (expand name) in
      ((is_expanded t name ≡ true) ↔ (is_expanded s name ≡ false))
      × (other ≢ name → is_expanded t other ≡ false)
unfolding feedback_reducer is_expanded
expand-toggles s name other named other_named = (ground arith, ground arith)

-- The first flag with the management id, if the reply has one.
abbrev pub management_flag : {E : Type 0} → Result E (List RawFeatureFlag) → Option RawFeatureFlag
management_flag (ok results) = find (λ raw. raw.id == management_id) results
management_flag (err _) = none

find-config :
    (id : String) (d : Bool) (results : List RawFeatureFlag)
    → get_config_flag
        (map (λ raw. record { name = raw.name; id = raw.id; enabled = raw.enabled }) results)
        id
        d
      ≡ (elim (find (λ raw. raw.id == id) results) [ none ↦ d | some raw ↦ raw.enabled ])
unfolding get_config_flag
find-config id d [] = refl
find-config id d (raw ∷ results) = ground (arith, find-config id d results)

-- Whether it allows to manage flags: if there is none, it does.
abbrev pub allows : Option RawFeatureFlag → Bool
allows none = true
allows (some raw) = raw.enabled

-- With a loaded configuration a flag can be switched exactly if it is modifiable and the first
-- management flag of the reply, if it has one, is enabled; a failed request counts as none.
modify_disabled_lem :
    {E : Type 0} (reply : Result E (List RawFeatureFlag)) (is_modifiable : Bool)
    → (modify_disabled is_modifiable (some (get_config reply)) ≡ false)
      ↔ ((is_modifiable ≡ true) × (allows (management_flag reply) ≡ true))
unfolding modify_disabled get_config get_raw_config_flags
modify_disabled_lem (err e) is_modifiable = ground arith
modify_disabled_lem (ok results) is_modifiable =
    ground (arith, find-config management_id true results)
