-- ===== src/Frontend/Tour.antt =====
-- The pages that the load generator's visits walk through (src/loadgen/src/visits): which page of the
-- frontend a call finds, and to which one it leads. The links are those of
-- src/frontend/src/components/Navigation.tsx, the tabs those of
-- components/instrument/InstrumentTransactions.tsx and the fields those of the forms.
pub mod Rules
pub mod Forms
pub mod Laws
pub mod Trades
pub mod Visits
pub mod Sessions
use easytrade.Base.{String, ◌<>◌, Bool, true, false, ◌||◌, Option, none, some, List, [], ◌∷◌, ◌++◌}
use easytrade.Base.{◌≡◌, ◌==◌, string_eq, nat_eq, if◌then◌else◌}
use easytrade.Base.Text.{Text, codes, same_text}
use easytrade.Loadgen.Browser.{
  Call, goto_page, input, click, navigate, click_handle, navigate_handle, short_delay,
  standard_delay, is_selector_present, get_handle, get_all_handles, get_property, get_inner_text,
  setup_page, end_dt_session,
}
use easytrade.Frontend.Forms.Views.{FormView, login_view, deposit_view, withdraw_view}
use easytrade.Frontend.Forms.Views.Rendering.{Rendering}
use easytrade.Frontend.Forms.Views.Scripts.{addresses}
use easytrade.Frontend.Instrument.{FormId, tabs, initial_form, panel}
use easytrade.Frontend.Shell.{NavigationItem, navigation_items}

-- A page of the protected layout.
pub data Inner : Type 0 where
  home deposit_page withdraw_page credit_card_page instruments_page : Inner
  instrument_page : FormId → Inner

-- Where a visit is: on the page for the log-in, or on one of these.
pub data TourPage : Type 0 where
  login_page : TourPage
  inside : Inner → TourPage

abbrev pub place_at : String → Option Inner
place_at path =
    if path == "/home"
    then some home
    else if path == "/instruments"
    then some instruments_page
    else if path == "/deposit"
    then some deposit_page
    else if path == "/withdraw"
    then some withdraw_page
    else if path == "/credit-card"
    then some credit_card_page
    else none

abbrev after_slash : Text → Text
after_slash [] = []
after_slash (c ∷ path) = path

-- The selector for a link by the path that it leads to, without the slash.
abbrev by_href : String → Text
by_href path = codes "//a[contains(@href, \"" ++ (after_slash (codes path) ++ codes "\")]")

-- Where the link leads that a selector finds in the navigation.
abbrev linked : List NavigationItem → String → Option Inner
linked [] xpath = none
linked (i ∷ items) xpath =
    if same_text (by_href i.path) (codes xpath) then place_at i.path else linked items xpath

abbrev pub tab_at : List (String × FormId) → String → Option FormId
tab_at [] xpath = none
tab_at ((label, form_id) ∷ ts) xpath =
    if "//button[text()=\"" <> label <> "\"]" == xpath then some form_id else tab_at ts xpath

abbrev is_submit : String → Bool
is_submit xpath = "//button[@id=\"submitButton\"]" == xpath

abbrev is_logout : String → Bool
is_logout xpath = "//li[@id=\"logoutItem\"]" == xpath

-- Where a link leads, and the buttons that lead to another page: a log-in is taken to be accepted.
abbrev pub after_link : TourPage → String → TourPage
unfolding string_eq nat_eq
after_link login_page xpath = if is_submit xpath then inside home else login_page
after_link (inside p) xpath = elim (linked navigation_items xpath) [
  | none ↦ if is_logout xpath then login_page else inside p
  | some q ↦ inside q
]

abbrev pub after_click : TourPage → String → TourPage
unfolding string_eq
after_click (inside (instrument_page form_id)) xpath = elim (tab_at tabs xpath) [
  | none ↦ inside (instrument_page form_id)
  | some other ↦ inside (instrument_page other)
]
after_click p xpath = p

-- Where a card of the instruments leads.
abbrev pub after_card : TourPage → TourPage
after_card (inside instruments_page) = inside (instrument_page initial_form)
after_card p = p

-- An address leads to the log-in, or to the first page of a user who is logged in.
abbrev pub after_address : TourPage → TourPage
after_address login_page = login_page
after_address (inside p) = inside home

-- The page after a call.
unfoldable pub next : {H : Type 0} → TourPage → Call H → TourPage
unfolding string_eq nat_eq
next p (navigate sel) = after_link p sel.xpath
next p (navigate_handle h) = after_card p
next p (click sel) = after_click p sel.xpath
next p (goto_page url) = after_address p
next p _ = p

-- The form of a page.
unfoldable pub form_at : TourPage → Option FormView
unfolding panel
form_at login_page = some login_view
form_at (inside deposit_page) = some deposit_view
form_at (inside withdraw_page) = some withdraw_view
form_at (inside (instrument_page form_id)) = some (panel form_id)
form_at (inside _) = none

abbrev is_some : {A : Type 0} → Option A → Bool
is_some none = false
is_some (some a) = true

abbrev is_card : String → Bool
is_card xpath =
    "//div[contains(@class, \"instrument-card\")]/a[contains(@href, \"instruments\")]" == xpath
    || "//div[contains(@class, \"owned-instrument\")]/a[contains(@href, \"instruments\")]" == xpath

-- Whether a page of the protected layout has what a call is for, its form aside: the links of the
-- navigation, the two buttons of the header and the item for the logout, the cards of the
-- instruments, and the tabs and the name of an instrument. Whether the menu with the item, the
-- navigation or a list of options is open is not part of the page.
unfoldable pub has_around : {H : Type 0} → Inner → Call H → Bool
unfolding string_eq nat_eq
has_around p (navigate sel) = is_some (linked navigation_items sel.xpath) || is_logout sel.xpath
has_around p (click sel) =
    "//button[@id=\"navigationToggler\"]" == sel.xpath
    || ("//button[@id=\"profileToggler\"]" == sel.xpath
        || (elim p [ instrument_page form_id ↦ is_some (tab_at tabs sel.xpath) | _ ↦ false ]))
has_around p (get_handle sel) = elim p [ instruments_page ↦ is_card sel.xpath | _ ↦ false ]
has_around p (get_all_handles sel) = elim p [ instruments_page ↦ is_card sel.xpath | _ ↦ false ]
has_around p (navigate_handle h) = elim p [ instruments_page ↦ true | _ ↦ false ]
has_around p (get_inner_text sel) = elim p [
  | instrument_page form_id ↦ "//*[@id=\"instrumentName\"]" == sel.xpath
  | _ ↦ false
]
has_around p _ = false

-- The calls that are for no element, or for one that was found before.
abbrev pub needs_nothing : {H : Type 0} → Call H → Bool
needs_nothing (setup_page agent ip visitor host) = true
needs_nothing (goto_page url) = true
needs_nothing (click_handle h) = true
needs_nothing short_delay = true
needs_nothing standard_delay = true
needs_nothing (is_selector_present sel) = true
needs_nothing end_dt_session = true
needs_nothing _ = false

-- Whether the form has it.
unfoldable pub has_inside : {H : Type 0} → Rendering → Option FormView → Call H → Bool
has_inside r none c = false
has_inside {H} r (some view) (input sel value) = addresses {H = H} r view (input sel value)
has_inside {H} r (some view) (click sel) = addresses {H = H} r view (click sel)
has_inside {H} r (some view) (get_handle sel) = addresses {H = H} r view (get_handle sel)
has_inside {H} r (some view) (navigate sel) = addresses {H = H} r view (navigate sel)
has_inside r (some view) (get_property sel name) = r.finds view sel.xpath
has_inside r (some view) c = false

abbrev pub around : {H : Type 0} → TourPage → Call H → Bool
unfolding has_around
around login_page c = false
around (inside p) c = has_around p c

-- The call finds what it is for on the page.
unfoldable pub meets : {H : Type 0} → Rendering → TourPage → Call H → Bool
unfolding has_around has_inside form_at
meets r p c = needs_nothing c || (around p c || has_inside r (form_at p) c)

-- Every call finds what it is for on the page that those before it lead to.
unfoldable pub Follows : {H : Type 0} → Rendering → TourPage → List (Call H) → Type 0
unfolding meets next
Follows r p [] = Unit {0}
Follows r p (c ∷ cs) = (meets r p c ≡ true) × Follows r (next p c) cs

-- The page after a list of calls.
unfoldable pub arrive : {H : Type 0} → TourPage → List (Call H) → TourPage
unfolding next
arrive p [] = p
arrive p (c ∷ cs) = arrive (next p c) cs
