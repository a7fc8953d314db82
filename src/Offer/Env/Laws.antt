-- ===== src/Offer/Env/Laws.antt =====
-- What a check of the environment promises about later reads.
use mathlib.Core.List.{foldl, Perm, perm_middle, perm_append_singleton, append-nil, append_assoc}
use mathlib.Core.List.Perm
use easytrade.Base.{◌≡◌, ◌≢◌, refl, ap, ◌∙◌, ◌⊎◌, inl, inr, String, Bool, true, false, none, some}
use easytrade.Base.{
  List, [], ◌∷◌, ◌++◌, map, select, All, arith, string_eq, Bool-cases, Option-cases,
}
use easytrade.Base.Dict
use easytrade.Base.Dict.{NodupKeys}
use easytrade.Base.Result.{ok, err}
use easytrade.Offer.Env.{ProcessEnv, EnvVar, EnvManager, Report, values_missing}
use easytrade.Offer.Env.{value_present, has_default, get_value, register, get_env, note}
use easytrade.Offer.Env.{check_env_vars, empty_report}

-- Every variable stands under its own name, and no name twice.
pub record IsKeyed (m : EnvManager) : Type 0 where
  pub named : All (λ (k, v). k ≡ v.name) m
  pub nodup : NodupKeys m

insert-named :
    (v : EnvVar) (m : EnvManager)
    → All (λ (k, v). k ≡ v.name) m
    → All (λ (k, v). k ≡ v.name) (Dict.insert v.name v m)
unfolding Dict.insert
insert-named v [] _ = (refl, tt)
insert-named v ((j, w) ∷ m) (e, es) = ground (arith, insert-named v m es)

-- Registering a variable keeps the manager keyed, also when it replaces one.
pub register-IsKeyed : (m : EnvManager) (v : EnvVar) → IsKeyed m → IsKeyed (register m v)
unfolding register
register-IsKeyed m v k = record {
  named = insert-named v m k.named;
  nodup = Dict.insert-NodupKeys v.name v m k.nodup;
}

-- `true` when a variable has no value, no default and is not deferred.
abbrev pub is_missing : ProcessEnv → EnvVar → Bool
is_missing env v = elim (env v.name) [
  | some _ ↦ false
  | none ↦ elim v.default_value [
    | some _ ↦ false
    | none ↦ elim v.deferred [ true ↦ false | false ↦ true ]
  ]
]

abbrev pub names : List EnvVar → List String
names = map (λ v. v.name)

abbrev pub vars : EnvManager → List EnvVar
vars = map (λ (_, v). v)

names-append : (vs ws : List EnvVar) → names (vs ++ ws) ≡ names vs ++ names ws
names-append [] ws = refl
names-append (v ∷ vs) ws = ap (◌∷◌ v.name) (names-append vs ws)

note-missing :
    (env : ProcessEnv) (r : Report) (v : EnvVar)
    → (note env r v).missing ≡ r.missing ++ names (select (is_missing env) (v ∷ []))
unfolding note value_present has_default
note-missing env r v = ground (arith, append-nil r.missing)

select-cons :
    (p : EnvVar → Bool) (v : EnvVar) (vs : List EnvVar)
    → names (select p (v ∷ vs)) ≡ names (select p (v ∷ [])) ++ names (select p vs)
select-cons p v vs = ground arith

foldl-note-missing :
    (env : ProcessEnv) (vs : List EnvVar) (r : Report)
    → (foldl (note env) r vs).missing ≡ r.missing ++ names (select (is_missing env) vs)
foldl-note-missing env [] r = rw append-nil
foldl-note-missing env (v ∷ vs) r =
    foldl-note-missing env vs (note env r v)
    ∙ rw (note-missing env r v, append_assoc, select-cons (is_missing env) v vs)

-- All the names of a report.
abbrev pub all_names : Report → List String
all_names r = r.checked ++ (r.defaults ++ (r.deferred ++ r.missing))

-- Appending a name to any of the four lists adds it to all of them.
module _ {ℓ} {A : Type ℓ} (a : A) where
  perm_push : (x y : List A) → Perm ((x ++ (a ∷ [])) ++ y) (a ∷ (x ++ y))
  perm_push x y = rw append_assoc (perm_middle x y)

  perm_under : (w : List A) {x y : List A} → Perm x (a ∷ y) → Perm (w ++ x) (a ∷ (w ++ y))
  perm_under w {y} p = Perm.trans (Perm.append_left w p) (perm_middle w y)

note-perm :
    (env : ProcessEnv) (r : Report) (v : EnvVar)
    → Perm (all_names (note env r v)) (v.name ∷ all_names r)
unfolding note
note-perm env r v = elim (Bool-cases (value_present env v)) [
  | inl e ↦ rw (e, note) (perm_push _ r.checked _)
  | inr e ↦ elim (Bool-cases (has_default v)) [
    | inl f ↦ rw (e, note, f) (perm_under _ r.checked (perm_push _ r.defaults _))
    | inr f ↦ elim (Bool-cases v.deferred) [
      | inl g ↦
          rw (e, note, f, g)
            (perm_under _ r.checked (perm_under _ r.defaults (perm_push _ r.deferred _)))
      | inr g ↦
          rw (e, note, f, g)
            (perm_under _ r.checked (
              perm_under _ r.defaults
                (perm_under _ r.deferred (perm_append_singleton _ r.missing))))
    ]
  ]
]

foldl-note-perm :
    (env : ProcessEnv) (vs : List EnvVar) (r : Report)
    → Perm (all_names (foldl (note env) r vs)) (all_names r ++ names vs)
foldl-note-perm env [] r = rw append-nil (Perm.refl _)
foldl-note-perm env (v ∷ vs) r = Perm.trans (foldl-note-perm env vs (note env r v)) (
    Perm.trans (Perm.append_right (names vs) (note-perm env r v))
      (Perm.symm (perm_middle (all_names r) (names vs))))

abbrev pub missing_names : ProcessEnv → EnvManager → List String
missing_names env m = names (select (is_missing env) (vars m))

-- If no registered variable is missing, the check passes and the three lists that it logs hold the
-- names of the registered variables, each as often as it is registered. Otherwise the check throws
-- an error with the names of the missing variables, in the order of registration.
pub check_env_vars_lem :
    (env : ProcessEnv) (m : EnvManager)
    → (missing_names env m ≡ []
        → (r : Report) × (check_env_vars env m ≡ ok r)
          × Perm (r.checked ++ (r.defaults ++ r.deferred)) (names (vars m)))
      × (missing_names env m ≢ []
          → check_env_vars env m ≡ err (values_missing (missing_names env m)))
unfolding check_env_vars
check_env_vars_lem env m =
    let r = foldl (note env) empty_report (vars m) in
    let e = foldl-note-missing env (vars m) empty_report in
    let p = foldl-note-perm env (vars m) empty_report in
    (
      λ none_missing.
          let nothing : r.missing ≡ [] = e ∙ none_missing in
          (r, ground arith, rw (nothing, append-nil) at p),
      λ some_missing. ground arith,
    )

lookup-not_missing :
    (env : ProcessEnv) (k : String) (m : EnvManager) (v : EnvVar)
    → missing_names env m ≡ []
    → Dict.lookup k m ≡ some v
    → is_missing env v ≡ false
unfolding Dict.lookup
lookup-not_missing env k [] v e f = cc
lookup-not_missing env k ((j, w) ∷ m) v e f = ground (arith, lookup-not_missing env k m v)

lookup-named :
    (k : String) (m : EnvManager) (v : EnvVar)
    → All (λ (k, v). k ≡ v.name) m
    → Dict.lookup k m ≡ some v
    → k ≡ v.name
unfolding Dict.lookup
lookup-named k [] v h f = cc
lookup-named k ((j, w) ∷ m) v (e, es) f = ground (arith, lookup-named k m v es)

passed-not_missing :
    (env : ProcessEnv) (m : EnvManager) (r : Report)
    → check_env_vars env m ≡ ok r
    → missing_names env m ≡ []
unfolding check_env_vars
passed-not_missing env m r passed = ground (arith, foldl-note-missing env (vars m) empty_report)

get_value-present :
    (env : ProcessEnv) (v : EnvVar)
    → is_missing env v ≡ false
    → v.deferred ≡ false
    → (value : String) × (get_value env v ≡ ok value)
      × ((env v.name ≡ some value) ⊎ ((env v.name ≡ none) × (v.default_value ≡ some value)))
unfolding get_value
get_value-present env v there now = elim (Option-cases (env v.name)) [
  | inl e ↦ elim (Option-cases v.default_value) [
    | inl f ↦ absurd (ground arith)
    | inr (d, f) ↦ (d, ground arith, inr (e, f))
  ]
  | inr (value, e) ↦ (value, ground arith, inl e)
]

-- After a check that passed, reading a registered variable that is not deferred returns a value,
-- the one of the process if it has one and the default if not.
pub check_env_vars-get_env :
    (env : ProcessEnv) (m : EnvManager) (name : String) (r : Report) (v : EnvVar)
    → check_env_vars env m ≡ ok r
    → IsKeyed m
    → Dict.lookup name m ≡ some v
    → v.deferred ≡ false
    → (value : String) × (get_env env m name ≡ ok value)
      × ((env name ≡ some value) ⊎ ((env name ≡ none) × (v.default_value ≡ some value)))
unfolding get_env
check_env_vars-get_env env m name r v passed k found now =
    let there = lookup-not_missing env name m v (passed-not_missing env m r passed) found in
    rw (found, get_env, lookup-named name m v k.named found) (get_value-present env v there now)
