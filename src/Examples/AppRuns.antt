-- ===== src/Examples/AppRuns.antt =====
-- The offer service's application (src/offerservice/src/app.ts) on a request for offers.
use easytrade.Base.{ℕ, ◌≡◌, refl, String, Option, none, some, true, [], ◌∷◌, ◌++◌, ◌==◌}
use easytrade.Base.{string_eq, if◌then◌else◌, leb, option_eq}
use easytrade.Base.Result.{ok}
use easytrade.Offer.Env.{ProcessEnv}
use easytrade.Offer.Plugin.{Slowdown}
use easytrade.Offer.Version.{Version}
use easytrade.Offer.App.{Client, Exchange, passes, Handler, use_layer, use_at, get_at, post_at}
use easytrade.Offer.App.{Services, app}
use easytrade.Offer.App.Express.{Serve, IsExpress, after, reaches, only_for}
use easytrade.Offer.App.Laws.{slowdown, cors_headers, offers_of, app_lem}

-- A router for paths without parameters and the offers for one platform.
abbrev matches : String → String → Option String
matches pattern path =
    if pattern == path
    then some ""
    else if pattern == "/api/offers/:platform"
    then (if path == "/api/offers/CheapTrading.mi" then some "CheapTrading.mi" else none)
    else none

abbrev serve : Serve String ℕ String
serve [] x = []
serve (use_layer h ∷ ls) x = after (h x) (serve ls)
serve (use_at p h ∷ ls) x = reaches (serve ls) h x (matches p x.path)
serve (get_at p h ∷ ls) x = reaches (serve ls) h x (only_for "GET" x (matches p x.path))
serve (post_at p h ∷ ls) x = reaches (serve ls) h x (only_for "POST" x (matches p x.path))

serve-IsExpress : IsExpress matches matches serve
serve-IsExpress = record {
  use_always = λ h ls x. refl;
  use_below = λ p h ls x. refl;
  get_matching = λ p h ls x other. refl;
  post_matching = λ p h ls x. refl;
}

abbrev no_services : Services String ℕ String
no_services = record {
  Url = String;
  Failure = Unit {0};
  new_url = λ path base. ok path;
  get_packages = λ url. ok [];
  get_products = λ url. ok [];
  post = λ url body. ok "created";
  le = leb;
  to_number = λ text. 0;
  parse_json = λ text. none;
  build_xml = λ offer. "";
  stringify = λ version. "";
  error_text = λ e. "";
}

abbrev no_variables : ProcessEnv
no_variables name = none

abbrev enabled : Client
enabled key default_value = true

abbrev slow : Slowdown
slow = record { delay_ms = 2000; affected_platforms = some "CheapTrading.mi" ∷ [] }

abbrev version : Version
version = record { build_version = "1.0"; build_date = "today"; build_commit = "abc" }

abbrev request : Exchange String
request = record {
  method = "GET";
  path = "/api/offers/CheapTrading.mi";
  product_filter = none;
  max_yearly_fee_filter = none;
  accept = none;
  body = "";
  client = none;
}

abbrev parser : Handler String ℕ String
parser x = passes [] x

app_lem_example :
    serve (app no_services no_variables parser parser enabled slow version) request
    ≡ cors_headers
      ++ slowdown enabled slow "CheapTrading.mi"
      ++ offers_of no_services no_variables "CheapTrading.mi" request
unfolding string_eq
app_lem_example =
    (app_lem matches matches serve serve-IsExpress no_services no_variables enabled slow version
        parser parser request request request refl refl).1
      "CheapTrading.mi" refl refl refl
