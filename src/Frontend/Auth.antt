-- ===== src/Frontend/Auth.antt =====
-- The session of the user: src/frontend/src/contexts/AuthContext/context.tsx, the loaders of
-- contexts/QueryContext/user/loaders.ts and the redirects of layouts/ProtectedLayout.tsx and
-- PublicLayout.tsx. The state is the stored user id; a handler's answer is an event.
pub mod Laws
use mathlib.Core.List.{foldl}
use easytrade.Base.{String, Bool, true, false, not, Option, none, some, List, ◌==◌, string_eq}
use easytrade.Base.{if◌then◌else◌, ◌||◌}

pub record LoginResponse : Type 0 where
  pub id : Option String
  pub error : Option String

pub record LogoutResponse : Type 0 where
  pub message : Option String
  pub error : Option String

abbrev pub AuthState : Type 0
AuthState = Option String

unfoldable pub login : LoginResponse → AuthState → AuthState
login response user_id = elim response.id [ none ↦ user_id | some id ↦ some id ]

unfoldable pub logout : LogoutResponse → AuthState → AuthState
logout response user_id = elim response.message [ none ↦ user_id | some _ ↦ none ]

unfoldable pub default_login : String → AuthState → AuthState
default_login id user_id = some id

-- A call of one of the three functions, with the answer that it got.
pub data Event : Type 0 where
  logged_in : LoginResponse → Event
  logged_out : LogoutResponse → Event
  default_logged_in : String → Event

unfoldable pub step : AuthState → Event → AuthState
unfolding login logout default_login
step user_id (logged_in response) = login response user_id
step user_id (logged_out response) = logout response user_id
step user_id (default_logged_in id) = default_login id user_id

unfoldable pub session : AuthState → List Event → AuthState
unfolding step
session user_id events = foldl step user_id events

-- `userId !== null`
unfoldable pub is_logged_in : AuthState → Bool
is_logged_in none = false
is_logged_in (some _) = true

-- What a layout or a loader leads to: a redirect, or the rest.
pub data Guarded (A : Type 0) : Type 0 where
  redirect : String → Guarded A
  proceed : A → Guarded A

unfoldable pub protected_layout : AuthState → Guarded (Unit {0})
unfolding is_logged_in
protected_layout user_id = if not (is_logged_in user_id) then redirect "/login" else proceed tt

unfoldable pub public_layout : AuthState → Guarded (Unit {0})
unfolding is_logged_in
public_layout user_id = if is_logged_in user_id then redirect "/home" else proceed tt

-- `sessionUserProvider`, for the item of the session storage and `JSON.parse`
unfoldable pub session_user_provider : (String → AuthState) → Option String → AuthState
session_user_provider parse none = none
session_user_provider parse (some item) = parse item

-- `loadWithUser`
unfoldable pub load_with_user : {T : Type 0} → AuthState → (String → T) → Guarded T
load_with_user none loader = redirect "/login"
load_with_user (some id) loader = if id == "" then redirect "/login" else proceed (loader id)
