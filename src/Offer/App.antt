-- ===== src/Offer/App.antt =====
-- The wiring of the offer service: src/offerservice/src/app.ts, routes and the set-up of plugins in
-- plugins/plugin.ts. An application of Express is the list of its layers, in the order in which they
-- are registered; how it walks them is the library's. The HTTP client, `URL`, the parsers of bodies
-- and the OpenFeature client are parameters; logging and the header X-Powered-By are left out.
pub mod Express
pub mod Laws
use easytrade.Base.{ℕ, String, Bool, Option, none, some, List, [], ◌∷◌, ◌++◌}
use easytrade.Base.Result.{Result, ok, err, ◌>>=◌}
use easytrade.Offer.Env.{ProcessEnv, EnvError, Report, check_env_vars, get_env, env_manager}
use easytrade.Offer.Env.Urls.{get_packages_url, get_products_url, get_create_new_user_url}
use easytrade.Offer.Env.Urls.{get_flags_url}
use easytrade.Offer.Catalog.{Package, Product, Json, get_packages, get_products}
use easytrade.Offer.Catalog.Controller.{OfferData, Response, HandlerError, get_offers}
use easytrade.Offer.Plugin.{Effect, delay, next, Slowdown, plugin_runner}
use easytrade.Offer.Signup.{Thrown, other_error, SignupResponse, sign_up_new_user}
use easytrade.Offer.Version.{Version, VersionResponse, get_version}

abbrev pub Client : Type 0
Client = String → Bool → Bool

-- A request with what the layers keep beside it: `body` once it is parsed, `client` is
-- `res.locals.openFeatureClient`.
pub record Exchange (B : Type 0) : Type 0 where
  pub method : String
  pub path : String
  pub product_filter : Option String
  pub max_yearly_fee_filter : Option String
  pub accept : Option String
  pub body : B
  pub client : Option Client

pub data Reply (N D : Type 0) : Type 0 where
  offers_reply : Response N → Reply N D
  signup_reply : SignupResponse D → Reply N D
  version_reply : VersionResponse → Reply N D

-- What happens to a response; a handler whose promise is rejected has not answered.
pub data AppEvent (N D : Type 0) : Type 0 where
  set_header : String → String → AppEvent N D
  wait : ℕ → AppEvent N D
  answer : Reply N D → AppEvent N D
  rejected : HandlerError → AppEvent N D
  type_error : AppEvent N D

-- A handler ends the request or calls `next`.
pub data Handled (B N D : Type 0) : Type 0 where
  passes : List (AppEvent N D) → Exchange B → Handled B N D
  ends : List (AppEvent N D) → Handled B N D

abbrev pub Handler : Type 0 → Type 0 → Type 0 → Type 0
Handler B N D = Exchange B → Handled B N D

-- What is registered: for all requests, for those below a path, or for a method and a path. At a
-- path a handler gets the value of the path's parameter, which is empty for a path without.
pub data Layer (B N D : Type 0) : Type 0 where
  use_layer : Handler B N D → Layer B N D
  use_at get_at post_at : String → (String → Handler B N D) → Layer B N D

abbrev pub get_offers_endpoint : String
get_offers_endpoint = "/api/offers/:platform"

abbrev pub new_user_endpoint : String
new_user_endpoint = "/api/signup"

abbrev pub get_version_endpoint : String
get_version_endpoint = "/api/version"

abbrev pub allow_headers : {N D : Type 0} → List (AppEvent N D)
allow_headers =
    set_header "Access-Control-Allow-Origin" "*"
    ∷ set_header "Access-Control-Allow-Methods" "OPTIONS, GET, POST, PUT, PATCH, DELETE"
    ∷ set_header "Access-Control-Allow-Headers" "Content-Type, Authorization"
    ∷ []

module _ {B N D : Type 0} where
  abbrev pub set_headers : Handler B N D
  set_headers x = passes allow_headers x

  unfoldable pub add_open_feature : Client → Handler B N D
  add_open_feature client x = passes [] (record x { client = some client })

  -- The effects of a plugin's runner, as the application sees them.
  unfoldable pub follow_effects : List Effect → List (AppEvent N D) → Handler B N D
  follow_effects [] events x = ends events
  follow_effects (delay ms ∷ effects) events x = follow_effects effects (events ++ (wait ms ∷ [])) x
  follow_effects (next ∷ effects) events x = passes events x

  -- `getPluginRunner`: without a client, the call of its method throws.
  unfoldable pub run_plugin : Slowdown → String → Handler B N D
  unfolding follow_effects
  run_plugin plugin platform x = elim x.client [
    | none ↦ ends (type_error ∷ [])
    | some client ↦ follow_effects (plugin_runner client plugin platform) [] x
  ]

  unfoldable pub setup_plugins : Client → Slowdown → List (Layer B N D)
  setup_plugins client plugin =
      use_layer (add_open_feature client) ∷ use_at get_offers_endpoint (run_plugin plugin) ∷ []

-- The libraries and services that the handlers call.
pub record Services (B N D : Type 0) : Type 1 where
  pub Url : Type 0
  pub Failure : Type 0
  pub new_url : String → String → Result EnvError Url
  pub get_packages : Url → Result Failure (List (Package N))
  pub get_products : Url → Result Failure (List (Product N))
  pub post : Url → B → Result (Thrown D) D
  pub le : N → N → Bool
  pub to_number : String → N
  pub parse_json : String → Option Json
  pub build_xml : OfferData N → String
  pub stringify : Version → String
  pub error_text : EnvError → String

module _ {B N D : Type 0} (services : Services B N D) (env : ProcessEnv) where
  open services use {new_url, le, to_number, parse_json, build_xml, stringify, error_text}

  -- What `getOffers` does, with the two providers of the application
  unfoldable pub offers_answer : String → Exchange B → List (AppEvent N D)
  offers_answer platform x =
      elim (get_offers to_number parse_json build_xml
        (get_packages le (get_packages_url new_url env) services.get_packages)
        (get_products (get_products_url new_url env) services.get_products)
        (record {
          platform = platform;
          product_filter = x.product_filter;
          max_yearly_fee_filter = x.max_yearly_fee_filter;
          accept = x.accept;
        })) [ ok response ↦ answer (offers_reply response) ∷ [] | err e ↦ rejected e ∷ [] ]

  -- An error of the URL is not one of the HTTP client.
  abbrev pub create_new_user_url : Result (Thrown D) services.Url
  create_new_user_url = elim (get_create_new_user_url new_url env) [
    | ok url ↦ ok url
    | err e ↦ err (other_error (error_text e))
  ]

  unfoldable pub signup_answer : Exchange B → List (AppEvent N D)
  signup_answer x =
      answer (signup_reply (sign_up_new_user create_new_user_url services.post x.body)) ∷ []

  unfoldable pub version_answer : Version → Exchange B → List (AppEvent N D)
  version_answer version x = answer (version_reply (get_version stringify version x.accept)) ∷ []

  unfoldable pub register_routes : Version → List (Layer B N D)
  register_routes version =
      get_at get_offers_endpoint (λ platform x. ends (offers_answer platform x))
      ∷ post_at new_user_endpoint (λ _ x. ends (signup_answer x))
      ∷ get_at get_version_endpoint (λ _ x. ends (version_answer version x))
      ∷ []

  -- The layers of `app`, for the two parsers of bodies
  unfoldable pub app :
      Handler B N D → Handler B N D → Client → Slowdown → Version → List (Layer B N D)
  app urlencoded json client plugin version =
      use_layer urlencoded ∷ use_layer json ∷ use_layer set_headers ∷ setup_plugins client plugin
      ++ register_routes version

-- The start: the variables are checked, the provider of the OpenFeature client builds the URL of the
-- flags, and the port that the application listens on is read.
unfoldable pub start_service :
    {Url P : Type 0}
    → (String → String → Result EnvError Url)
    → (String → P)
    → ProcessEnv
    → Result EnvError (Url × P)
start_service new_url parse_int env = do
  report ← check_env_vars env env_manager
  flags_url ← get_flags_url new_url env
  port ← get_env env env_manager "APP_PORT"
  ok (flags_url, parse_int port)
