-- ===== src/Frontend/Services.antt =====
-- The requests for users, sessions, instruments and prices: src/frontend/src/api/login/login.ts,
-- api/signup/signup.ts, api/user/user.ts, api/instrument/instruments.ts and api/price/price.ts, with
-- api/backend/users.ts, instruments.ts and prices.ts behind them. The HTTP client and the XML
-- builder and parser are parameters, any functions that may throw.
use easytrade.Base.{ℕ, String, ◌<>◌, Option, none, some, List, [], map}
use easytrade.Base.Result.{Result, ok, err, ◌>>=◌, catch}
use easytrade.Frontend.Auth.{LoginResponse, LogoutResponse}
use easytrade.Frontend.Forms.Account.{SignupRequest, PresetUser}

-- The request of a sign-up as the login service takes it.
pub record SignupBody : Type 0 where
  pub package_id : ℕ
  pub origin : String
  pub first_name : String
  pub last_name : String
  pub username : String
  pub email : String
  pub address : String
  pub password : String

-- What the builder is given, over the type of numbers.
pub data XmlRequest (N : Type 0) : Type 0 where
  login_request : String → String → XmlRequest N
  logout_request : N → XmlRequest N
  signup_request_xml : SignupBody → XmlRequest N

pub record SignupResponse : Type 0 where
  pub id : Option String
  pub error : Option String

pub record UserResponse (N : Type 0) : Type 0 where
  pub id : N
  pub package_id : N
  pub first_name : String
  pub last_name : String
  pub email : String
  pub address : String

pub record AccountData : Type 0 where
  pub id : String
  pub first_name : String
  pub last_name : String
  pub package_type : String
  pub email : String
  pub address : String

pub record BalanceResponse (N : Type 0) : Type 0 where
  pub account_id : N
  pub value : N

pub record Balance (N : Type 0) : Type 0 where
  pub account_id : String
  pub value : N

pub record PresetUserResponse (N : Type 0) : Type 0 where
  pub id : N
  pub first_name : String
  pub last_name : String

pub record PriceResponse (N : Type 0) : Type 0 where
  pub id : N
  pub instrument_id : N
  pub timestamp : String
  pub open_price : N
  pub close : N
  pub high : N
  pub low : N

pub record Price (N : Type 0) : Type 0 where
  pub id : String
  pub instrument_id : String
  pub timestamp : String
  pub open_price : N
  pub close : N
  pub high : N
  pub low : N

-- The package and the origin are always the same.
abbrev pub signup_body : SignupRequest → SignupBody
signup_body request = record {
  package_id = 1;
  origin = "easyTrade";
  first_name = request.first_name;
  last_name = request.last_name;
  username = request.login;
  email = request.email;
  address = request.address;
  password = request.password;
}

abbrev pub map_price : {N : Type 0} → (N → String) → PriceResponse N → Price N
map_price show p = record {
  id = show p.id;
  instrument_id = show p.instrument_id;
  timestamp = p.timestamp;
  open_price = p.open_price;
  close = p.close;
  high = p.high;
  low = p.low;
}

module _ {N X E : Type 0} (build : XmlRequest N → X) (send_post : String → X → Result E X) where
  unfoldable pub login_xml : (X → Result E LoginResponse) → String → String → Result E LoginResponse
  login_xml parse username password =
      send_post "/Login" (build (login_request username password)) >>= parse

  unfoldable pub logout_xml : (X → Result E LogoutResponse) → N → Result E LogoutResponse
  logout_xml parse account_id = send_post "/Logout" (build (logout_request account_id)) >>= parse

  unfoldable pub signup_xml : (X → Result E SignupResponse) → SignupBody → Result E SignupResponse
  signup_xml parse request = send_post "/Signup" (build (signup_request_xml request)) >>= parse

  unfoldable pub login : (X → Result E LoginResponse) → String → String → LoginResponse
  unfolding login_xml
  login parse name password =
      catch (login_xml parse name password)
        (λ _. record { id = none; error = some "Login or password invalid" })

  unfoldable pub logout : (String → N) → (X → Result E LogoutResponse) → String → LogoutResponse
  unfolding logout_xml
  logout to_number parse user_id =
      catch (logout_xml parse (to_number user_id))
        (λ _. record { message = none; error = some "There was a problem with logging out" })

  unfoldable pub signup : (X → Result E SignupResponse) → SignupRequest → SignupResponse
  unfolding signup_xml
  signup parse request =
      catch (signup_xml parse (signup_body request)) (λ _. record {
        id = none;
        error = some "There was an error processing the signup request.";
      })

module _ {N E : Type 0} (show : N → String) where
  unfoldable pub get_user :
      (String → Result E (UserResponse N)) → String → Result String AccountData
  get_user send_get user_id = elim (send_get ("/accounts/" <> user_id)) [
    | ok answer ↦ ok (record {
      id = show answer.id;
      first_name = answer.first_name;
      last_name = answer.last_name;
      package_type = show answer.package_id;
      email = answer.email;
      address = answer.address;
    })
    | err _ ↦ err ("User with id [" <> user_id <> "] not found")
  ]

  unfoldable pub get_balance :
      (String → Result E (BalanceResponse N)) → String → Result String (Balance N)
  get_balance send_get user_id = elim (send_get ("/balance/" <> user_id)) [
    | ok answer ↦ ok (record { account_id = show answer.account_id; value = answer.value })
    | err _ ↦ err ("Balance with account id [" <> user_id <> "] not found")
  ]

  unfoldable pub get_preset_users :
      (String → Result E (List (PresetUserResponse N))) → List PresetUser
  get_preset_users send_get =
      catch
        (send_get "/accounts/presets" >>= λ results. ok (
          map (λ u. record { id = show u.id; first_name = u.first_name; last_name = u.last_name })
            results))
        (λ _. [])

  module _ {X : Type 0} (send_get : String → Result E X)
      (parse : X → Result E (List (PriceResponse N))) where
    unfoldable pub get_latest_prices : List (Price N)
    get_latest_prices =
        catch (send_get "/prices/latest" >>= parse >>= λ results. ok (map (map_price show) results))
          (λ _. [])

    unfoldable pub get_prices_for_instrument : String → List (Price N)
    get_prices_for_instrument instrument_id =
        catch
          (send_get ("/prices/instrument/" <> instrument_id <> "?records=1440")
            >>= parse
            >>= λ results. ok (map (map_price show) results))
          (λ _. [])

-- Without a user the text of `undefined` is sent.
unfoldable pub get_instruments :
    {I E : Type 0} → (String → Result E (List I)) → Option String → List I
get_instruments send_get none = catch (send_get "/instrument?accountId=undefined") (λ _. [])
get_instruments send_get (some user_id) =
    catch (send_get ("/instrument?accountId=" <> user_id)) (λ _. [])
