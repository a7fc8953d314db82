-- ===== src/Loadgen/User.antt =====
-- Users and random choices: src/loadgen/src/user, utils.ts and const.ts. The users of
-- resources/users.json are a parameter of what draws from them.
use easytrade.Base.{ℕ, String, Option, none, List, [], ◌∷◌, length, get_elem?}

pub data CardProvider : Type 0 where
  visa_debit visa_credit mastercard american_express : CardProvider

pub record User : Type 0 where
  pub first_name : String
  pub last_name : String
  pub username : String
  pub email : String
  pub password : String
  pub user_agent : String
  pub ip4 : String
  pub address : String
  pub credit_card_number : String
  pub credit_card_cvv : String
  pub credit_card_provider : CardProvider
  pub visitor_id : String

abbrev pub credit_card_mapping : CardProvider → String
credit_card_mapping visa_debit = "Visa Debit"
credit_card_mapping visa_credit = "Visa Credit"
credit_card_mapping mastercard = "Mastercard"
credit_card_mapping american_express = "American Express"

abbrev pub easytrade_credit_card_types : List String
easytrade_credit_card_types = "Silver" ∷ "Gold" ∷ "Platinum" ∷ []

-- `arrayRandom`, where `pick n` is `Math.floor(Math.random() * n)`.
unfoldable pub array_random : {A : Type 0} → (ℕ → ℕ) → List A → Option A
array_random pick [] = none
array_random pick (x ∷ xs) = get_elem? (x ∷ xs) (pick (length (x ∷ xs)))

-- `getRandomUser`
unfoldable pub get_random_user : List User → (ℕ → ℕ) → Option User
unfolding array_random
get_random_user users pick = array_random pick users
