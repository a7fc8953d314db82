-- ===== src/Offer/Version.antt =====
-- `getVersion`: src/offerservice/src/version (types.ts, const.ts, controller.ts). The three values
-- come from package.json and are parameters; JSON is the text that `JSON.stringify` gives.
use easytrade.Base.{Bool, false, String, ◌<>◌, Option, none, some, ◌==◌, string_eq, if◌then◌else◌}

pub record Version : Type 0 where
  pub build_version : String
  pub build_date : String
  pub build_commit : String

pub record VersionResponse : Type 0 where
  pub type : String
  pub text : String

unfoldable pub get_version_string : Version → String
get_version_string v =
    "EasyTrade Offer Service Version: " <> v.build_version <> "\n\nBuild date: " <> v.build_date
    <> ", git commit: " <> v.build_commit

abbrev is_json : Option String → Bool
is_json none = false
is_json (some accept) = accept == "application/json"

unfoldable pub get_version : (Version → String) → Version → Option String → VersionResponse
unfolding get_version_string
get_version stringify version accept =
    if is_json accept
    then record { type = "json"; text = stringify version }
    else record { type = "txt"; text = get_version_string version }
