-- ===== src/Frontend/Versions.antt =====
-- The versions of the services: src/frontend/src/api/version/versions.ts. The reply to each request
-- is a parameter, a function of the service's URL; `Promise.all` over requests that are never
-- rejected is a map.
pub mod Page
use easytrade.Base.{String, ◌<>◌, ◌≡◌, refl, Bool, true, false, List, [], ◌∷◌, map}
use easytrade.Base.{inl, inr}
use easytrade.Base.Result.{Result, ok, err, Result-cases}

pub record ServiceVersionUrl : Type 0 where
  pub service_name : String
  pub version_url : String

pub record ServiceVersionData : Type 0 where
  pub build_version : String
  pub build_date : String
  pub build_commit : String

pub data ServiceVersion : Type 0 where
  version_success : String → ServiceVersionData → ServiceVersion
  version_error : String → String → ServiceVersion

abbrev url : String → String → ServiceVersionUrl
url name path = record { service_name = name; version_url = path }

abbrev pub services : List ServiceVersionUrl
services =
    url "Account Service" "/accountservice/api/version"
    ∷ url "Broker Service" "/broker-service/version"
    ∷ url "Credit Card Order Service" "/credit-card-order-service/version"
    ∷ url "Engine" "/engine/api/version"
    ∷ url "Feature Flag Service" "/feature-flag-service/version"
    ∷ url "Login Service" "/loginservice/api/version"
    ∷ url "Manager" "/manager/api/version"
    ∷ url "Offer Service" "/offerservice/api/version"
    ∷ url "Pricing Service" "/pricing-service/version"
    ∷ url "Third Party Service" "/third-party-service/version"
    ∷ []

abbrev pub name_of : ServiceVersion → String
name_of (version_success name _) = name
name_of (version_error name _) = name

-- `true` for an entry that shows a version.
abbrev pub is_version : ServiceVersion → Bool
is_version (version_success _ _) = true
is_version (version_error _ _) = false

module _ {E : Type 0} (get_version : String → Result E ServiceVersionData) where
  unfoldable pub get_service_version : ServiceVersionUrl → ServiceVersion
  get_service_version service = elim (get_version service.version_url) [
    | ok answer ↦ version_success service.service_name answer
    | err e ↦ version_error service.service_name (service.service_name <> " didn't respond")
  ]

  unfoldable pub get_all_versions : List ServiceVersion
  unfolding get_service_version
  get_all_versions = map get_service_version services

  name_of-get_service_version :
      (service : ServiceVersionUrl) → name_of (get_service_version service) ≡ service.service_name
  unfolding get_service_version
  name_of-get_service_version service = elim (Result-cases (get_version service.version_url)) [
    | inl (answer, replied) ↦ rw (replied, get_service_version) refl
    | inr (e, failed) ↦ rw (failed, get_service_version) refl
  ]

  pub names-get_service_version :
      (ss : List ServiceVersionUrl)
      → map name_of (map get_service_version ss) ≡ map (λ s. s.service_name) ss
  names-get_service_version [] = refl
  names-get_service_version (s ∷ ss) =
      rw (name_of-get_service_version s, names-get_service_version ss)

  is_version-get_service_version :
      (service : ServiceVersionUrl)
      → is_version (get_service_version service)
        ≡ (elim (get_version service.version_url) [ ok _ ↦ true | err _ ↦ false ])
  unfolding get_service_version
  is_version-get_service_version service = elim (Result-cases (get_version service.version_url)) [
    | inl (answer, replied) ↦ rw (replied, get_service_version) refl
    | inr (e, failed) ↦ rw (failed, get_service_version) refl
  ]

  versions_known :
      (ss : List ServiceVersionUrl)
      → map is_version (map get_service_version ss)
        ≡ map (λ s. elim (get_version s.version_url) [ ok _ ↦ true | err _ ↦ false ]) ss
  versions_known [] = refl
  versions_known (s ∷ ss) = rw (is_version-get_service_version s, versions_known ss)

  -- Whatever the services reply, the page gets one entry for each, in the order of the list and
  -- under its name; an entry shows a version exactly if the service at its position replied.
  get_all_versions_lem :
      (map name_of get_all_versions ≡ map (λ s. s.service_name) services)
      × (map is_version get_all_versions
          ≡ map (λ s. elim (get_version s.version_url) [ ok _ ↦ true | err _ ↦ false ]) services)
  unfolding get_all_versions
  get_all_versions_lem = (names-get_service_version services, versions_known services)
