-- ===== src/Offer/App/Laws.antt =====
-- What the layers of the offer service make of a request.
use easytrade.Base.{◌≡◌, refl, String, false, Option, none, some, List, [], ◌∷◌}
use easytrade.Base.{◌++◌, ◌&&◌, string_eq, inl, inr, if◌then◌else◌, ◌∙◌, ap}
use easytrade.Base.{Bool-cases, includes, option_eq}
use easytrade.Offer.Env.{ProcessEnv, EnvError}
use easytrade.Offer.Env.Urls.{
  base_url, get_flags_url, get_packages_url, get_products_url, get_create_new_user_url,
}
use easytrade.Offer.Env.Defaults.{value_or, base_urls, app_port, check_env_vars-env_manager}
use easytrade.Base.Result.{Result, ok, err}
use easytrade.Offer.App.{start_service}
use easytrade.Offer.Plugin.{Slowdown, plugin_name, is_platform_affected, plugin_runner, run}
use easytrade.Offer.Version.{Version, get_version}
use easytrade.Offer.App.{
  Client, Exchange, AppEvent, wait, passes, Handler, Layer, set_header, answer,
}
use easytrade.Offer.App.{offers_reply, signup_reply, version_reply, rejected}
use easytrade.Offer.Catalog.{get_packages, get_products}
use easytrade.Offer.Catalog.Controller.{get_offers}
use easytrade.Offer.Signup.{Thrown, other_error, sign_up_new_user}
use easytrade.Offer.App.{set_headers, add_open_feature, run_plugin, follow_effects, setup_plugins}
use easytrade.Offer.App.{register_routes, Services, app, offers_answer, signup_answer}
use easytrade.Offer.App.{version_answer, get_offers_endpoint}
use easytrade.Offer.App.Express.{
  after, Serve, reaches, IsExpress, passes-on, get-serve, get-skips_post, post-serve,
  post-skips_get,
}

-- In every environment the service starts if the URL of its flags can be built, and it listens on
-- the port of APP_PORT, which is 8080 if the variable is not set.
start_service_lem :
    {Url P : Type 0} (new_url : String → String → Result EnvError Url) (parse_int : String → P)
    (env : ProcessEnv) (url : Url)
    → new_url "/v1/flags" (
        base_url
          (value_or env "FEATURE_FLAG_SERVICE_PROTOCOL" "http")
          (value_or env "FEATURE_FLAG_SERVICE_BASE_URL" "localhost")
          (value_or env "FEATURE_FLAG_SERVICE_PORT" "80"))
      ≡ ok url
    → start_service new_url parse_int env ≡ ok (url, parse_int (value_or env "APP_PORT" "8080"))
unfolding start_service get_flags_url
start_service_lem new_url parse_int env url built =
    let (report, checked) = check_env_vars-env_manager env in
    rw (checked, (base_urls env).2, built, app_port env) refl

-- The headers of every answer.
abbrev pub cors_headers : {N D : Type 0} → List (AppEvent N D)
cors_headers =
    set_header "Access-Control-Allow-Origin" "*"
    ∷ set_header "Access-Control-Allow-Methods" "OPTIONS, GET, POST, PUT, PATCH, DELETE"
    ∷ set_header "Access-Control-Allow-Headers" "Content-Type, Authorization"
    ∷ []

-- The wait of a request for offers: once if the flag is enabled and the platform is affected.
abbrev pub slowdown : {N D : Type 0} → Client → Slowdown → String → List (AppEvent N D)
slowdown client plugin platform =
    if client "ergo_aggregator_slowdown" false && includes plugin.affected_platforms (some platform)
    then wait plugin.delay_ms ∷ []
    else []

run_plugin_lem :
    {B N D : Type 0} (client : Client) (plugin : Slowdown) (platform : String) (x : Exchange B)
    → x.client ≡ some client
    → run_plugin {B = B} {N = N} {D = D} plugin platform x
      ≡ passes (slowdown client plugin platform) x
unfolding run_plugin follow_effects plugin_runner run is_platform_affected
run_plugin_lem client plugin platform x given = elim (Bool-cases (client plugin_name false)) [
  | inl on ↦ elim (Bool-cases (includes plugin.affected_platforms (some platform))) [
    | inl affected ↦ rw (given, on, affected) refl
    | inr other ↦ rw (given, on, other) refl
  ]
  | inr off ↦ rw (given, off) refl
]

-- What the three routes answer, with the URLs of the services.
module _ {B N D : Type 0} (services : Services B N D) (env : ProcessEnv) where
  open services use {new_url, le, to_number, parse_json, build_xml, error_text}

  abbrev manager : String
  manager =
      base_url (value_or env "MANAGER_PROTOCOL" "http")
        (value_or env "MANAGER_BASE_URL" "localhost") (value_or env "MANAGER_PORT" "8081")

  abbrev login_service : String
  login_service =
      base_url (value_or env "LOGIN_SERVICE_POROTOCOL" "http")
        (value_or env "LOGIN_SERVICE_BASE_URL" "localhost")
        (value_or env "LOGIN_SERVICE_PORT" "8081")

  packages_url : get_packages_url new_url env ≡ new_url "/api/Packages/GetPackages" manager
  unfolding get_packages_url
  packages_url = rw (base_urls env).0 refl

  products_url : get_products_url new_url env ≡ new_url "/api/Products/GetProducts" manager
  unfolding get_products_url
  products_url = rw (base_urls env).0 refl

  signup_url :
      get_create_new_user_url new_url env ≡ new_url "/api/Accounts/CreateNewAccount" login_service
  unfolding get_create_new_user_url
  signup_url = rw (base_urls env).1 refl

  abbrev pub offers_of : String → Exchange B → List (AppEvent N D)
  offers_of platform z =
      elim (get_offers to_number parse_json build_xml
        (get_packages le (new_url "/api/Packages/GetPackages" manager) services.get_packages)
        (get_products (new_url "/api/Products/GetProducts" manager) services.get_products)
        (record {
          platform = platform;
          product_filter = z.product_filter;
          max_yearly_fee_filter = z.max_yearly_fee_filter;
          accept = z.accept;
        })) [ ok response ↦ answer (offers_reply response) ∷ [] | err e ↦ rejected e ∷ [] ]

  offers_answer-offers_of :
      (platform : String) (z : Exchange B)
      → offers_answer services env platform z ≡ offers_of platform z
  unfolding offers_answer
  offers_answer-offers_of platform z = rw (offers_answer, packages_url, products_url) refl

  -- An error of the URL is not one of the HTTP client.
  abbrev thrown : Result EnvError services.Url → Result (Thrown D) services.Url
  thrown built = elim built [ ok url ↦ ok url | err e ↦ err (other_error (error_text e)) ]

  abbrev pub signup_of : Exchange B → List (AppEvent N D)
  signup_of z =
      answer (
        signup_reply (
          sign_up_new_user (thrown (new_url "/api/Accounts/CreateNewAccount" login_service))
            services.post z.body))
      ∷ []

  signup_answer-signup_of : (z : Exchange B) → signup_answer services env z ≡ signup_of z
  unfolding signup_answer
  signup_answer-signup_of z =
      ap (λ url. answer (signup_reply (sign_up_new_user (thrown url) services.post z.body)) ∷ [])
        signup_url

module _ {B N D : Type 0} (matches mounted : String → String → Option String) (serve : Serve B N D)
    (express : IsExpress matches mounted serve) where
  plugin-slows :
      (client : Client) (plugin : Slowdown) (ls : List (Layer B N D)) (x : Exchange B)
      → x.client ≡ some client
      → (o : Option String)
      → reaches (serve ls) (run_plugin plugin) x o
        ≡ elim o [ some v ↦ slowdown client plugin v ++ serve ls x | none ↦ serve ls x ]
  plugin-slows client plugin ls x given none = refl
  plugin-slows client plugin ls x given (some v) =
      ap (λ h. after h (serve ls)) (run_plugin_lem client plugin v x given)

  module _ (services : Services B N D) (env : ProcessEnv) (client : Client) (plugin : Slowdown)
      (version : Version) where
    abbrev routes : Exchange B → List (AppEvent N D)
    routes z = serve (register_routes services env version) (record z { client = some client })

    setup_plugins-serve :
        (z : Exchange B)
        → serve (setup_plugins client plugin ++ register_routes services env version) z
          ≡ elim (mounted get_offers_endpoint z.path) [
            | some platform ↦ slowdown client plugin platform ++ routes z
            | none ↦ routes z
          ]
    unfolding setup_plugins add_open_feature
    setup_plugins-serve z =
        express.use_always _ _ z
        ∙ express.use_below _ _ _ (record z { client = some client })
        ∙ plugin-slows client plugin (register_routes services env version) _ refl _

    app-serve :
        (urlencoded json : Handler B N D) (x y z : Exchange B)
        → urlencoded x ≡ passes [] y
        → json y ≡ passes [] z
        → serve (app services env urlencoded json client plugin version) x
          ≡ cors_headers ++ elim (mounted get_offers_endpoint z.path) [
            | some platform ↦ slowdown client plugin platform ++ routes z
            | none ↦ routes z
          ]
    unfolding app
    app-serve urlencoded json x y z form parsed =
        passes-on matches mounted serve express urlencoded _ x y form
        ∙ passes-on matches mounted serve express json _ y z parsed
        ∙ express.use_always set_headers
            (setup_plugins client plugin ++ register_routes services env version) z
        ∙ ap (λ es. cors_headers ++ es) (setup_plugins-serve z)

    -- For a request whose body the parsers accept, the three headers are set first. A GET of the
    -- offers for a platform waits once if the flag is enabled and the platform is affected, and is
    -- then answered by `getOffers`, with the manager's packages and products at their URLs and the
    -- request's filters and `Accept` header. A POST of a new user is answered by the signup, at the
    -- URL of the login service and with the body, and a GET of the version by the version, both
    -- without a wait. What comes after the headers for any other request is not stated.
    pub app_lem :
        (urlencoded json : Handler B N D) (x y z : Exchange B)
        → urlencoded x ≡ passes [] y
        → json y ≡ passes [] z
        → let served = serve (app services env urlencoded json client plugin version) x in
          ((rest : List (AppEvent N D)) × (served ≡ cors_headers ++ rest))
          × ((platform : String)
              → z.method ≡ "GET"
              → mounted "/api/offers/:platform" z.path ≡ some platform
              → matches "/api/offers/:platform" z.path ≡ some platform
              → served
                ≡ cors_headers
                  ++ slowdown client plugin platform
                  ++ offers_of services env platform z)
          × ((v : String)
              → z.method ≡ "POST"
              → mounted "/api/offers/:platform" z.path ≡ none
              → matches "/api/signup" z.path ≡ some v
              → served ≡ cors_headers ++ signup_of services env z)
          × ((v : String)
              → z.method ≡ "GET"
              → mounted "/api/offers/:platform" z.path ≡ none
              → matches "/api/offers/:platform" z.path ≡ none
              → matches "/api/version" z.path ≡ some v
              → served
                ≡ cors_headers
                  ++ (answer (version_reply (get_version services.stringify version z.accept))
                      ∷ []))
    unfolding register_routes version_answer
    app_lem urlencoded json x y z form parsed =
        let served = app-serve urlencoded json x y z form parsed in
        (
          (_, served),
          λ platform get below at.
              served
              ∙ rw below (
                  ap (λ es. cors_headers ++ slowdown client plugin platform ++ es)
                    (get-serve matches mounted serve express _ _ _ _ get
                      ∙ rw at (offers_answer-offers_of services env platform _))),
          λ v post below at.
              served
              ∙ rw below (
                  ap (λ es. cors_headers ++ es)
                    (get-skips_post matches mounted serve express _ _ _ _ post
                      ∙ post-serve matches mounted serve express _ _ _ _ post
                      ∙ rw at (signup_answer-signup_of services env _))),
          λ v get below other at.
              served
              ∙ rw below (
                  ap (λ es. cors_headers ++ es)
                    (get-serve matches mounted serve express _ _ _ _ get
                      ∙ rw other (
                          post-skips_get matches mounted serve express _ _ _ _ get
                          ∙ get-serve matches mounted serve express _ _ _ _ get
                          ∙ rw at refl))),
        )
