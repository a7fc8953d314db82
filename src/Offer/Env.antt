-- ===== src/Offer/Env.antt =====
-- Environment variables: src/offerservice/src/env (const.ts, envVar.ts, envManager.ts) and the base
-- URLs of src/offerservice/src/urls/urls.ts. `process.env` is a function from names to values. The
-- lists that `checkEnvVars` only logs are its result; a thrown error is an `EnvError`.
pub mod Laws
pub mod Urls
pub mod Defaults
use mathlib.Core.List.{foldl}
use easytrade.Base.{String, Bool, true, false, Option, none, some, List, [], ◌∷◌, ◌++◌, map}
use easytrade.Base.{string_eq}
use easytrade.Base.Dict
use easytrade.Base.Dict.{Dict}
use easytrade.Base.Result.{Result, ok, err}

abbrev pub ProcessEnv : Type 0
ProcessEnv = String → Option String

pub record EnvVar : Type 0 where
  pub name : String
  pub default_value : Option String
  pub deferred : Bool

pub data EnvError : Type 0 where
  missing_env_var : String → EnvError
  not_registered : String → EnvError
  values_missing : List String → EnvError

abbrev is_some : Option String → Bool
is_some none = false
is_some (some _) = true

unfoldable pub value_present : ProcessEnv → EnvVar → Bool
value_present env v = is_some (env v.name)

unfoldable pub has_default : EnvVar → Bool
has_default v = is_some v.default_value

unfoldable pub get_value : ProcessEnv → EnvVar → Result EnvError String
get_value env v = elim (env v.name) [
  | some value ↦ ok value
  | none ↦ elim v.default_value [ none ↦ err (missing_env_var v.name) | some d ↦ ok d ]
]

-- `envVars`, a map from names to variables.
abbrev pub EnvManager : Type 0
EnvManager = Dict String EnvVar

unfoldable pub register : EnvManager → EnvVar → EnvManager
register m v = Dict.insert v.name v m

unfoldable pub get_env_list : EnvManager → List String
unfolding Dict.keys
get_env_list m = Dict.keys m

unfoldable pub get_env : ProcessEnv → EnvManager → String → Result EnvError String
unfolding get_value
get_env env m name = elim (Dict.lookup name m) [
  | none ↦ err (not_registered name)
  | some v ↦ get_value env v
]

-- The four lists of `checkEnvVars`.
pub record Report : Type 0 where
  pub missing : List String
  pub deferred : List String
  pub checked : List String
  pub defaults : List String

unfoldable pub note : ProcessEnv → Report → EnvVar → Report
note env r v = elim (value_present env v) [
  | true ↦ record r { checked = r.checked ++ (v.name ∷ []) }
  | false ↦ elim (has_default v) [
    | true ↦ record r { defaults = r.defaults ++ (v.name ∷ []) }
    | false ↦ elim v.deferred [
      | true ↦ record r { deferred = r.deferred ++ (v.name ∷ []) }
      | false ↦ record r { missing = r.missing ++ (v.name ∷ []) }
    ]
  ]
]

abbrev pub empty_report : Report
empty_report = record { missing = []; deferred = []; checked = []; defaults = [] }

abbrev pub verdict : Report → Result EnvError Report
verdict r = elim r.missing [ [] ↦ ok r | name ∷ names ↦ err (values_missing (name ∷ names)) ]

unfoldable pub check_env_vars : ProcessEnv → EnvManager → Result EnvError Report
unfolding note
check_env_vars env m = verdict (foldl (note env) empty_report (map (λ (_, v). v) m))

-- `new EnvVar(name, value)`, which is not deferred.
abbrev pub with_default : String → String → EnvVar
with_default name value = record { name = name; default_value = some value; deferred = false }

abbrev pub registered : List EnvVar
registered =
    with_default "MANAGER_BASE_URL" "localhost"
    ∷ with_default "MANAGER_PORT" "8081"
    ∷ with_default "MANAGER_PROTOCOL" "http"
    ∷ with_default "LOGIN_SERVICE_BASE_URL" "localhost"
    ∷ with_default "LOGIN_SERVICE_PORT" "8081"
    ∷ with_default "LOGIN_SERVICE_POROTOCOL" "http"
    ∷ with_default "APP_PORT" "8080"
    ∷ with_default "FEATURE_FLAG_SERVICE_BASE_URL" "localhost"
    ∷ with_default "FEATURE_FLAG_SERVICE_PORT" "80"
    ∷ with_default "FEATURE_FLAG_SERVICE_PROTOCOL" "http"
    ∷ []

-- The exported manager, after its registrations.
unfoldable pub env_manager : EnvManager
unfolding register Dict.insert string_eq
env_manager = foldl register [] registered
