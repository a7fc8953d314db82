-- ===== src/Frontend/Versions/Page.antt =====
-- The page of the versions: src/frontend/src/pages/Version.tsx with components/version. What the
-- frontend's package.json says of its own build is a parameter.
use easytrade.Base.{◌≡◌, refl, ap, ◌∙◌, ◌↔◌, String, Bool, true, false, ◌&&◌, Option, none, some}
use easytrade.Base.{List, [], ◌∷◌, map, All, ◌==◌, string_eq, arith, inl, inr, if◌then◌else◌}
use easytrade.Base.Result.{Result, ok, Result-cases}
use easytrade.Frontend.Versions.{
  ServiceVersionUrl, ServiceVersionData, ServiceVersion, version_success, version_error, services,
  get_service_version, get_all_versions, name_of, names-get_service_version,
}

-- A cell, with or without an alert.
pub data Cell : Type 0 where
  plain warning : String → Cell

pub data VersionRow : Type 0 where
  version_row : String → Cell → Cell → Cell → VersionRow
  error_row : String → String → VersionRow

-- `DifferenceWarning`
unfoldable pub difference_warning : String → String → Cell
difference_warning value expected = if value == expected then plain value else warning value

module _ (frontend : ServiceVersionData) where
  -- `getFrontendVersion`
  abbrev pub get_frontend_version : ServiceVersion
  get_frontend_version = version_success "Frontend" frontend

  -- `VersionsTabelItem`
  unfoldable pub versions_table_item : ServiceVersion → VersionRow
  unfolding difference_warning
  versions_table_item (version_error name message) = error_row name message
  versions_table_item (version_success name answer) =
      version_row name (difference_warning answer.build_version frontend.build_version)
        (difference_warning answer.build_date frontend.build_date)
        (difference_warning answer.build_commit frontend.build_commit)

  -- `Version`, for `isPending` and the query's data; `none` is the spinner.
  unfoldable pub version_page : Bool → Option (List ServiceVersion) → Option (List VersionRow)
  unfolding versions_table_item
  version_page true versions = none
  version_page false none = some (map versions_table_item (get_frontend_version ∷ []))
  version_page false (some versions) =
      some (map versions_table_item (get_frontend_version ∷ versions))

-- A row without an alert.
abbrev pub is_plain : Cell → Bool
is_plain (plain value) = true
is_plain (warning value) = false

abbrev pub is_quiet : VersionRow → Bool
is_quiet (error_row name message) = false
is_quiet (version_row name version date commit) =
    is_plain version && is_plain date && is_plain commit

abbrev pub all_quiet : List VersionRow → Bool
all_quiet [] = true
all_quiet (r ∷ rs) = is_quiet r && all_quiet rs

abbrev pub row_name : VersionRow → String
row_name (error_row name message) = name
row_name (version_row name version date commit) = name

is_plain-difference_warning :
    (value expected : String) → is_plain (difference_warning value expected) ≡ (value == expected)
unfolding difference_warning
is_plain-difference_warning value expected = ground arith

module _ (frontend : ServiceVersionData) where
  same_build :
      (answer : ServiceVersionData)
      → (answer.build_version == frontend.build_version
            && answer.build_date == frontend.build_date
            && answer.build_commit == frontend.build_commit
          ≡ true)
        ↔ (answer ≡ frontend)
  same_build answer = (
    λ all. ext answer (ground (arith, all)) (ground (arith, all)) (ground (arith, all)),
    λ same. rw same (ground arith),
  )
    where
      ext :
          (a : ServiceVersionData)
          → a.build_version ≡ frontend.build_version
          → a.build_date ≡ frontend.build_date
          → a.build_commit ≡ frontend.build_commit
          → a ≡ frontend
      ext a v d c = λ i. record { build_version = v i; build_date = d i; build_commit = c i }

  -- A row for an answer is quiet if the answer is the frontend's build.
  quiet_answer :
      (name : String) (answer : ServiceVersionData)
      → (is_quiet (versions_table_item frontend (version_success name answer)) ≡ true)
        ↔ (answer ≡ frontend)
  unfolding versions_table_item
  quiet_answer name answer =
      rw
        (
          is_plain-difference_warning answer.build_version frontend.build_version,
          is_plain-difference_warning answer.build_date frontend.build_date,
          is_plain-difference_warning answer.build_commit frontend.build_commit,
        )
        (same_build answer)

  module _ {E : Type 0} (get_version : String → Result E ServiceVersionData) where
    quiet_service :
        (s : ServiceVersionUrl)
        → (is_quiet (versions_table_item frontend (get_service_version get_version s)) ≡ true)
          ↔ (get_version s.version_url ≡ ok frontend)
    unfolding versions_table_item get_service_version
    quiet_service s = elim (Result-cases (get_version s.version_url)) [
      | inl (answer, replied) ↦
          let (to, from) = quiet_answer s.service_name answer in
          rw (replied, get_service_version)
            (λ quiet. ap ok (to quiet), λ same. from (ground (arith, same)))
      | inr (e, failed) ↦
          rw (failed, get_service_version)
            (λ quiet. absurd (ground arith), λ same. absurd (ground arith))
    ]

    quiet_services :
        (ss : List ServiceVersionUrl)
        → (all_quiet (map (versions_table_item frontend) (map (get_service_version get_version) ss))
            ≡ true)
          ↔ All (λ s. get_version s.version_url ≡ ok frontend) ss
    quiet_services [] = (λ _. tt, λ _. refl)
    quiet_services (s ∷ ss) =
        let (to, from) = quiet_service s in
        let (to_rest, from_rest) = quiet_services ss in
        (
          λ quiet. (to (ground arith), to_rest (ground arith)),
          λ (one, rest). rw (from one, from_rest rest) refl,
        )

    row_names :
        (vs : List ServiceVersion)
        → map row_name (map (versions_table_item frontend) vs) ≡ map name_of vs
    unfolding versions_table_item
    row_names [] = refl
    row_names (version_error name message ∷ vs) = rw (row_names vs) refl
    row_names (version_success name answer ∷ vs) = rw (row_names vs) refl

    -- Once the query has answered, the page has a row for the frontend and one for each service, in
    -- the order of the list; and no row has an alert exactly if every service answered and runs the
    -- frontend's build.
    pub version_page_lem :
        (rows : List VersionRow) × (version_page frontend false
            (some (get_all_versions get_version))
          ≡ some rows)
        × (map row_name rows ≡ "Frontend" ∷ map (λ s. s.service_name) services)
        × ((all_quiet rows ≡ true) ↔ All (λ s. get_version s.version_url ≡ ok frontend) services)
    unfolding version_page get_all_versions
    version_page_lem =
        let vs = get_all_versions get_version in
        let (to, from) = quiet_services services in
        let own = (quiet_answer "Frontend" frontend).1 refl in
        (
          map (versions_table_item frontend) (get_frontend_version frontend ∷ vs),
          refl,
          row_names (get_frontend_version frontend ∷ vs)
              ∙ ap (◌∷◌ "Frontend") (names-get_service_version get_version services),
          (λ quiet. to (ground (arith, own, quiet)), λ same. rw (own, from same) refl),
        )
