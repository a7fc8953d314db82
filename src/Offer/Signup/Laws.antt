-- ===== src/Offer/Signup/Laws.antt =====
-- What a client of the offer service learns about a signup.
use easytrade.Base.{ℕ, ◌≡◌, refl, ◌≢◌, ◌↔◌, inl, inr, Option, none, some, arith}
use easytrade.Base.Result.{Result, ok, err, Result-cases}
use easytrade.Offer.Signup.{Thrown, axios_error, other_error, payload}
use easytrade.Offer.Signup.{sign_up_new_user, signup_error}

-- The status that the login service gave, if its response is known.
abbrev pub reply_status : {D : Type 0} → Thrown D → Option ℕ
reply_status (axios_error (some r) _) = some r.status
reply_status (axios_error none _) = none
reply_status (other_error _) = none

abbrev pub status_of : {D : Type 0} → Thrown D → ℕ
status_of e = elim (reply_status e) [ some status ↦ status | none ↦ 500 ]

error_status :
    {D : Type 0} (e : Thrown D) → reply_status e ≢ some 201 → (signup_error e).status ≢ 201
unfolding signup_error
error_status (axios_error none text) h = ground arith
error_status (axios_error (some r) text) h = ground arith
error_status (other_error text) h = ground arith

module _ {D Url B : Type 0} (url : Url) (post : Url → B → Result (Thrown D) D) (b : B) where
  -- If the client's errors never carry status 201 (it rejects only on other statuses), the handler
  -- answers 201 exactly when the login service created the account, and then with its data.
  pub sign_up_new_user-created :
      ((e : Thrown D) → post url b ≡ err e → reply_status e ≢ some 201)
      → let answer = sign_up_new_user (ok url) post b in
        ((answer.status ≡ 201) ↔ ((d : D) × (post url b ≡ ok d)))
        × ((d : D) → post url b ≡ ok d → answer ≡ record { status = 201; body = payload d })
  unfolding sign_up_new_user signup_error
  sign_up_new_user-created honest = elim (Result-cases (post url b)) [
    | inl (d, posted) ↦
        rw (posted, sign_up_new_user) ((λ _. (d, refl), λ _. refl), λ c same. ground arith)
    | inr (e, failed) ↦
        rw (failed, sign_up_new_user)
          (
            (λ h. absurd (error_status e (honest e failed) h), λ (d, posted). ground arith),
            λ d posted. ground arith,
          )
  ]

-- An error never leaves the request unanswered: the status is that of the login service where its
-- response is known, and 500 where it is not, also if the URL could not be built.
sign_up_new_user-status :
    {D Url B : Type 0} (url : Result (Thrown D) Url) (post : Url → B → Result (Thrown D) D) (b : B)
    (e : Thrown D)
    → (url ≡ err e → (sign_up_new_user url post b).status ≡ status_of e)
      × ((u : Url)
          → url ≡ ok u
          → post u b ≡ err e
          → (sign_up_new_user url post b).status ≡ status_of e)
unfolding sign_up_new_user signup_error
sign_up_new_user-status url post b (axios_error none text) =
    (λ h. ground arith, λ u h k. ground arith)
sign_up_new_user-status url post b (axios_error (some r) text) =
    (λ h. ground arith, λ u h k. ground arith)
sign_up_new_user-status url post b (other_error text) = (λ h. ground arith, λ u h k. ground arith)
