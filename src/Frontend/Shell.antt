-- ===== src/Frontend/Shell.antt =====
-- What surrounds the pages: src/frontend/src/components/AppHeader/AppHeader.tsx with its logo and
-- icons, components/version/VersionDialog.tsx, components/Navigation.tsx and
-- contexts/NavigationContext/context.tsx, shown by layouts/ProtectedLayout.tsx, the mode of
-- contexts/ThemeContext, and the links between pages/public/Login.tsx and Signup.tsx.
pub mod Laws
use easytrade.Base.{ℕ, String, Bool, true, false, not, Option, none, some, List, [], ◌∷◌, ◌++◌}
use easytrade.Base.{map, select, length, if◌then◌else◌}
use easytrade.Frontend.Auth.{AuthState, is_logged_in, protected_layout, redirect, proceed}
use easytrade.Frontend.FeatureFlags.{FeatureFlag}

pub record NavigationItem : Type 0 where
  pub path : String
  pub text : String

abbrev item : String → String → NavigationItem
item path text = record { path = path; text = text }

abbrev pub navigation_items : List NavigationItem
navigation_items =
    item "/home" "Home"
    ∷ item "/instruments" "Instruments"
    ∷ item "/deposit" "Deposit"
    ∷ item "/withdraw" "Withdraw"
    ∷ item "/credit-card" "Credit Card"
    ∷ []

-- `NavigationProvider`: the state is whether the navigation is visible.
unfoldable pub toggle_navigation : Bool → Bool
toggle_navigation navigation_visible = not navigation_visible

abbrev pub hide_navigation : Bool → Bool
hide_navigation navigation_visible = false

-- The effect of `ProtectedLayout`: a small screen hides the navigation.
abbrev pub on_screen : Bool → Bool → Bool
on_screen navigation_hidden visible = if navigation_hidden then hide_navigation visible else visible

-- `ThemeProvider`: the theme is what the browser prefers, until it is toggled.
pub data ThemeMode : Type 0 where
  dark light : ThemeMode

unfoldable pub get_preferred_theme : Bool → ThemeMode
get_preferred_theme prefers_dark = if prefers_dark then dark else light

unfoldable pub toggle_theme : ThemeMode → ThemeMode
toggle_theme dark = light
toggle_theme light = dark

-- The count beside the flag icon, for the flags if they are loaded
unfoldable pub enabled_flag_count : Option (List FeatureFlag) → ℕ
enabled_flag_count none = 0
enabled_flag_count (some flags) = length (select (λ flag. flag.enabled) flags)

-- The parts of the header.
pub data HeaderPart : Type 0 where
  navigation_toggler logo theme_switcher feature_flag_icon version_info user_panel : HeaderPart

unfoldable pub app_header : AuthState → List HeaderPart
unfolding is_logged_in
app_header user_id =
    (if is_logged_in user_id then navigation_toggler ∷ [] else [])
    ++ ((logo ∷ theme_switcher ∷ feature_flag_icon ∷ version_info ∷ [])
        ++ (if is_logged_in user_id then user_panel ∷ [] else []))

-- Where a part of the header leads; the version icon opens the dialog with the link.
abbrev pub part_links : HeaderPart → List String
part_links navigation_toggler = []
part_links logo = "/" ∷ []
part_links theme_switcher = []
part_links feature_flag_icon = "/feature-flags" ∷ []
part_links version_info = "/version" ∷ []
part_links user_panel = []

abbrev pub header_links : List HeaderPart → List String
header_links [] = []
header_links (part ∷ parts) = part_links part ++ header_links parts

-- The links of the navigation, which stands in the protected layout.
unfoldable pub navigation_links : AuthState → Bool → List String
unfolding protected_layout
navigation_links user_id visible = elim (protected_layout user_id) [
  | redirect _ ↦ []
  | proceed _ ↦ if visible then map (λ i. i.path) navigation_items else []
]

-- The links of the two pages for who is not logged in.
abbrev pub login_link : String
login_link = "/signup"

abbrev pub signup_link : String
signup_link = "/login"

-- All links that somebody sees: on a page of the protected layout, or on one of the public layout.
unfoldable pub shown_links : AuthState → Bool → List String
unfolding app_header navigation_links is_logged_in
shown_links user_id visible =
    header_links (app_header user_id)
    ++ (navigation_links user_id visible
        ++ (if is_logged_in user_id then [] else login_link ∷ signup_link ∷ []))
