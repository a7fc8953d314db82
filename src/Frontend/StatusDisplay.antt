-- ===== src/Frontend/StatusDisplay.antt =====
-- The status messages of the forms: src/frontend/src/hooks/useStatusDisplay.ts and
-- components/StatusDisplay.tsx.
use mathlib.Core.List.{foldl}
use easytrade.Base.{◌≡◌, refl, String, Bool, not, ◌||◌, List, []}
use easytrade.Base.{◌∷◌, ◌++◌, ◌==◌, string_eq, arith, if◌then◌else◌}

pub record Status : Type 0 where
  pub success_msg : String
  pub error_msg : String

abbrev pub initial_status : Status
initial_status = record { success_msg = ""; error_msg = "" }

unfoldable pub set_success : String → Status → Status
set_success msg s = record { success_msg = msg; error_msg = "" }

unfoldable pub set_error : String → Status → Status
set_error msg s = record { success_msg = ""; error_msg = msg }

unfoldable pub reset_status : Status → Status
unfolding set_success set_error
reset_status s = set_error "" (set_success "" s)

unfoldable pub is_error : Status → Bool
is_error s = not (s.error_msg == "")

unfoldable pub is_success : Status → Bool
is_success s = not (s.success_msg == "")

unfoldable pub has_msg : Status → Bool
has_msg s = not (s.error_msg == "") || not (s.success_msg == "")

-- The calls that a form makes of the hook's functions.
pub data StatusAction : Type 0 where
  calls_success : String → StatusAction
  calls_error : String → StatusAction
  calls_reset : StatusAction

unfoldable pub act : Status → StatusAction → Status
unfolding set_success set_error reset_status
act s (calls_success msg) = set_success msg s
act s (calls_error msg) = set_error msg s
act s calls_reset = reset_status s

-- The alerts that `StatusDisplay` shows, by severity and text.
unfoldable pub status_display : Status → List (String × String)
unfolding is_error is_success
status_display s =
    (if is_error s then ("error", s.error_msg) ∷ [] else [])
    ++ (if is_success s then ("success", s.success_msg) ∷ [] else [])

-- What a form has to show after an action, alone.
abbrev pub alert_of : StatusAction → List (String × String)
alert_of (calls_success msg) = if msg == "" then [] else ("success", msg) ∷ []
alert_of (calls_error msg) = if msg == "" then [] else ("error", msg) ∷ []
alert_of calls_reset = []

after_last :
    (s : Status) (actions : List StatusAction) (a : StatusAction)
    → foldl act s (actions ++ (a ∷ [])) ≡ act (foldl act s actions) a
after_last s [] a = refl
after_last s (b ∷ actions) a = after_last (act s b) actions a

shown :
    (s : Status) (a : StatusAction)
    → (status_display (act s a) ≡ alert_of a)
      × (has_msg (act s a) ≡ is_error (act s a) || is_success (act s a))
unfolding act status_display has_msg set_success set_error reset_status is_error is_success
shown s (calls_success msg) = (ground arith, refl)
shown s (calls_error msg) = (ground arith, refl)
shown s calls_reset = (ground arith, refl)

-- Whatever calls came before, the display shows the message of the last one and nothing else: at
-- most one alert, and none after a reset or for an empty message.
status_display_lem :
    (s : Status) (actions : List StatusAction) (a : StatusAction)
    → status_display (foldl act s (actions ++ (a ∷ []))) ≡ alert_of a
status_display_lem s actions a = rw (after_last s actions a) (shown (foldl act s actions) a).0
