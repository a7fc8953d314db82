-- ===== src/Offer/Env/Defaults.antt =====
-- The exported manager of src/offerservice/src/env/envManager.ts and the base URLs that are built
-- from it, in every environment.
use mathlib.Core.List.{foldl}
use easytrade.Base.{◌≡◌, refl, sym, ap, ◌∙◌, String, true, false, none, some, List, [], ◌∷◌}
use easytrade.Base.{◌==◌, string_eq, if◌then◌else◌, arith, All, select}
use easytrade.Base.Dict
use easytrade.Base.Result.{ok}
use easytrade.Offer.Env.{
  ProcessEnv, EnvVar, EnvManager, Report, env_manager, get_env, check_env_vars,
}
use easytrade.Offer.Env.{has_default, register, registered}
use easytrade.Offer.Env.Laws.{
  check_env_vars_lem, IsKeyed, register-IsKeyed, is_missing, names, vars,
}
use easytrade.Offer.Env.Urls.{base_url, get_manager_base, get_login_service_base_url}
use easytrade.Offer.Env.Urls.{get_feature_flag_service_base_url}

-- The value of a variable, or its default.
abbrev pub value_or : ProcessEnv → String → String → String
value_or env name d = elim (env name) [ none ↦ d | some value ↦ value ]

found_registered : All (λ v. Dict.lookup v.name env_manager ≡ some v) registered
unfolding env_manager Dict.lookup
found_registered =
    (refl, (refl, (refl, (refl, (refl, (refl, (refl, (refl, (refl, (refl, tt))))))))))

get_env_default :
    (env : ProcessEnv) (name d : String)
    → Dict.lookup name env_manager
      ≡ some (record { name = name; default_value = some d; deferred = false })
    → get_env env env_manager name ≡ ok (value_or env name d)
unfolding get_env
get_env_default env name d found = rw (found, get_env) (ground arith)

pub app_port :
    (env : ProcessEnv) → get_env env env_manager "APP_PORT" ≡ ok (value_or env "APP_PORT" "8080")
app_port env =
    let (_, (_, (_, (_, (_, (_, (port, _))))))) = found_registered in get_env_default env _ _ port

-- In every environment the three base URLs can be built, each from its three variables or their
-- defaults.
pub base_urls :
    (env : ProcessEnv)
    → (get_manager_base env
        ≡ ok (
            base_url
              (value_or env "MANAGER_PROTOCOL" "http")
              (value_or env "MANAGER_BASE_URL" "localhost")
              (value_or env "MANAGER_PORT" "8081")))
      × (get_login_service_base_url env
          ≡ ok (
              base_url
                (value_or env "LOGIN_SERVICE_POROTOCOL" "http")
                (value_or env "LOGIN_SERVICE_BASE_URL" "localhost")
                (value_or env "LOGIN_SERVICE_PORT" "8081")))
      × (get_feature_flag_service_base_url env
          ≡ ok (
              base_url
                (value_or env "FEATURE_FLAG_SERVICE_PROTOCOL" "http")
                (value_or env "FEATURE_FLAG_SERVICE_BASE_URL" "localhost")
                (value_or env "FEATURE_FLAG_SERVICE_PORT" "80")))
unfolding get_manager_base get_login_service_base_url get_feature_flag_service_base_url
base_urls env =
    let (base, (port, (protocol, (login_base, (login_port, (login_protocol, (_, flags))))))) =
      found_registered in
    (
      rw (
        get_env_default env _ _ protocol,
        get_env_default env _ _ base,
        get_env_default env _ _ port,
      ),
      rw (
        get_env_default env _ _ login_protocol,
        get_env_default env _ _ login_base,
        get_env_default env _ _ login_port,
      ),
      rw (
        get_env_default env _ _ flags.1.1.0,
        get_env_default env _ _ flags.0,
        get_env_default env _ _ flags.1.0,
      ),
    )

-- `process.env` with one variable set.
abbrev pub set_env : String → String → ProcessEnv → ProcessEnv
set_env name value env n = if n == name then some value else env n

-- A value for `LOGIN_SERVICE_PROTOCOL` never reaches the base URL of the login service.
login_protocol-ignored :
    (env : ProcessEnv) (value : String)
    → get_login_service_base_url (set_env "LOGIN_SERVICE_PROTOCOL" value env)
      ≡ get_login_service_base_url env
unfolding string_eq
login_protocol-ignored env value =
    (base_urls (set_env "LOGIN_SERVICE_PROTOCOL" value env)).1 ∙ sym (base_urls env).1

foldl-register-IsKeyed :
    (vs : List EnvVar) (m : EnvManager) → IsKeyed m → IsKeyed (foldl register m vs)
foldl-register-IsKeyed [] m k = k
foldl-register-IsKeyed (v ∷ vs) m k =
    foldl-register-IsKeyed vs (register m v) (register-IsKeyed m v k)

pub env_manager-IsKeyed : IsKeyed env_manager
unfolding env_manager
env_manager-IsKeyed = foldl-register-IsKeyed registered [] (record { named = tt; nodup = tt })

none_missing :
    (env : ProcessEnv) (vs : List EnvVar)
    → All (λ v. has_default v ≡ true) vs
    → select (is_missing env) vs ≡ []
unfolding has_default
none_missing env [] _ = refl
none_missing env (v ∷ vs) (d, ds) = ground (arith, none_missing env vs ds)

registered_defaults : All (λ v. has_default v ≡ true) (vars env_manager)
unfolding env_manager has_default
registered_defaults =
    (refl, (refl, (refl, (refl, (refl, (refl, (refl, (refl, (refl, (refl, tt))))))))))

-- The check of the exported manager passes in every environment.
pub check_env_vars-env_manager :
    (env : ProcessEnv) → (r : Report) × (check_env_vars env env_manager ≡ ok r)
check_env_vars-env_manager env =
    let (r, passed, _) =
      (check_env_vars_lem env env_manager).0
        (ap names (none_missing env (vars env_manager) registered_defaults)) in
    (r, passed)
