-- ===== src/Offer/Signup.antt =====
-- `signUpNewUser`: src/offerservice/src/signups/controller.ts. The URL of the login service and the
-- request to it may throw; an error of the HTTP client carries the response, if there was one.
pub mod Laws
use easytrade.Base.{ℕ, ◌≡◌, refl, ◌≢◌, String, ◌<>◌, Option, none, some, arith}
use easytrade.Base.Result.{Result, ok, err}

-- A response of the login service, of any type of data.
pub record Reply (D : Type 0) : Type 0 where
  pub status : ℕ
  pub payload : Option D

-- What `axios.post` or the construction of the URL throws, with the text of the error.
pub data Thrown (D : Type 0) : Type 0 where
  axios_error : Option (Reply D) → String → Thrown D
  other_error : String → Thrown D

-- The JSON body that is sent: data of the login service, or a message.
pub data SignupBody (D : Type 0) : Type 0 where
  payload : D → SignupBody D
  message : String → SignupBody D

pub record SignupResponse (D : Type 0) : Type 0 where
  pub status : ℕ
  pub body : SignupBody D

module _ {D : Type 0} where
  abbrev status_or : Option (Reply D) → ℕ → ℕ
  status_or none d = d
  status_or (some r) d = r.status

  abbrev payload_of : Option (Reply D) → Option D
  payload_of none = none
  payload_of (some r) = r.payload

  -- The `catch` block.
  unfoldable pub signup_error : Thrown D → SignupResponse D
  signup_error (axios_error reply text) = record {
    status = status_or reply 500;
    body = elim (payload_of reply) [
      | some d ↦ payload d
      | none ↦ message ("Unexpected server side error [" <> text <> "]")
    ];
  }
  signup_error (other_error text) = record {
    status = 500;
    body = message ("Unexpected error when trying to singup user [" <> text <> "]");
  }

  -- The handler, for a URL and a way to post the request's body to it.
  unfoldable pub sign_up_new_user :
      {Url B : Type 0}
      → Result (Thrown D) Url
      → (Url → B → Result (Thrown D) D)
      → B
      → SignupResponse D
  sign_up_new_user (err e) post body = signup_error e
  sign_up_new_user (ok url) post body = elim (post url body) [
    | ok d ↦ record { status = 201; body = payload d }
    | err e ↦ signup_error e
  ]
