-- ===== src/Offer/Env/Urls.antt =====
-- The base URLs of the other services: src/offerservice/src/urls/urls.ts and const.ts. The global
-- `URL` class is a parameter: `new_url path base` is the URL or, for an invalid base, an error.
use easytrade.Base.{String, ◌<>◌}
use easytrade.Base.Result.{Result, ok, ◌>>=◌}
use easytrade.Offer.Env.{ProcessEnv, EnvError, get_env, env_manager}

-- `${protocol}://${baseUrl}:${port}`
abbrev pub base_url : String → String → String → String
base_url protocol base port = protocol <> "://" <> base <> ":" <> port

unfoldable pub get_manager_base : ProcessEnv → Result EnvError String
get_manager_base env = do
  protocol ← get_env env env_manager "MANAGER_PROTOCOL"
  base ← get_env env env_manager "MANAGER_BASE_URL"
  port ← get_env env env_manager "MANAGER_PORT"
  ok (base_url protocol base port)

unfoldable pub get_login_service_base_url : ProcessEnv → Result EnvError String
get_login_service_base_url env = do
  protocol ← get_env env env_manager "LOGIN_SERVICE_POROTOCOL"
  base ← get_env env env_manager "LOGIN_SERVICE_BASE_URL"
  port ← get_env env env_manager "LOGIN_SERVICE_PORT"
  ok (base_url protocol base port)

unfoldable pub get_feature_flag_service_base_url : ProcessEnv → Result EnvError String
get_feature_flag_service_base_url env = do
  protocol ← get_env env env_manager "FEATURE_FLAG_SERVICE_PROTOCOL"
  base ← get_env env env_manager "FEATURE_FLAG_SERVICE_BASE_URL"
  port ← get_env env env_manager "FEATURE_FLAG_SERVICE_PORT"
  ok (base_url protocol base port)

module _ {Url : Type 0} (new_url : String → String → Result EnvError Url) where
  unfoldable pub get_packages_url : ProcessEnv → Result EnvError Url
  get_packages_url env = do base ← get_manager_base env; new_url "/api/Packages/GetPackages" base

  unfoldable pub get_products_url : ProcessEnv → Result EnvError Url
  get_products_url env = do base ← get_manager_base env; new_url "/api/Products/GetProducts" base

  unfoldable pub get_create_new_user_url : ProcessEnv → Result EnvError Url
  get_create_new_user_url env = do
    base ← get_login_service_base_url env
    new_url "/api/Accounts/CreateNewAccount" base

  unfoldable pub get_flags_url : ProcessEnv → Result EnvError Url
  get_flags_url env = do base ← get_feature_flag_service_base_url env; new_url "/v1/flags" base
