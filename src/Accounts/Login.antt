-- ===== src/Accounts/Login.antt =====
-- The posted login form: login_view of apps/accounts/views.py with a valid form, and the functions of
-- apps/accounts/services.py behind it. `iexact` is the database's comparison without case,
-- `check_password` is Django's, `lower` is Python's `str.lower`.
pub mod Credentials
pub mod Outcomes
pub mod Locked
mod Tests
use hivewiki_web.Base.{
  ℕ, Bool, true, false, not, ◌&&◌, Option, none, some, List, ◌==◌, if◌then◌else◌, first_of_rows,
  any_of,
}
use hivewiki_web.Base.Text.{Text, text_eq, is_empty}
use hivewiki_web.Django.Cache.{Cache}
use hivewiki_web.Accounts.Models.{HiveUser, OAuthAccount, is_active}
use hivewiki_web.Accounts.Directory.{Directory}
use hivewiki_web.Accounts.OAuth.{text_or_empty}
use hivewiki_web.Accounts.RateLimit.{
  AttemptState, is_login_rate_limited, get_login_rate_limit_remaining_seconds, record_failed_login,
  reset_login_rate_limit,
}
use hivewiki_web.Accounts.Sessions.{register_user_session}

-- `request.session`: its key, SESSION_USER_ID_KEY and TIMEZONE_SESSION_KEY.
pub record Session : Type 0 where
  pub session_key : Option Text
  pub user_id : Option ℕ
  pub timezone : Option Text

-- What the page says: the wait, one of the three errors, or whom it logged in.
pub data LoginResponse : Type 0 where
  limited : ℕ → LoginResponse
  inactive oauth_only mismatch : LoginResponse
  logged_in : HiveUser → LoginResponse

module _ (iexact : Text → Text → Bool) where
  unfoldable pub get_active_user_by_email : Text → List HiveUser → Option HiveUser
  get_active_user_by_email email = first_of_rows (λ u. iexact u.email email && is_active u.status)

  unfoldable pub get_user_by_email : Text → List HiveUser → Option HiveUser
  get_user_by_email email = first_of_rows (λ u. iexact u.email email)

module _ (iexact : Text → Text → Bool) (check_password : Text → Text → Bool) where
  -- `not user.password_hash` is true of None and of the empty text.
  abbrev pub verify : Text → HiveUser → Option HiveUser
  verify password u =
      let hash = text_or_empty u.password_hash in
      if is_empty hash then none else if check_password password hash then some u else none

  abbrev pub verify_found : Text → Option HiveUser → Option HiveUser
  verify_found password none = none
  verify_found password (some u) = verify password u

  unfoldable pub authenticate_user : Text → Text → List HiveUser → Option HiveUser
  authenticate_user email password users =
      verify_found password (get_active_user_by_email iexact email users)

-- The error of a login that failed.
abbrev pub failure_of : List OAuthAccount → Option HiveUser → LoginResponse
failure_of accounts none = mismatch
failure_of accounts (some u) =
    if not (is_active u.status)
    then inactive
    else if any_of (λ a. a.user_id == u.id) accounts && is_empty (text_or_empty u.password_hash)
    then oauth_only
    else mismatch

-- `_reset_session_preserving(request, TIMEZONE_SESSION_KEY)`: a flush leaves no key.
abbrev pub reset_session_preserving : Session → Session
reset_session_preserving s = record { session_key = none; user_id = none; timezone = s.timezone }

module _ (index : Cache ℕ (List Text) ◌==◌) (session_cookie_age : ℕ) where
  -- `cycle_key` gives the session a new key.
  unfoldable pub login_user : ℕ → Text → HiveUser → index.Store × Session → index.Store × Session
  login_user now new_key u (i, s) =
      let s' : Session = record (reset_session_preserving s) {
        session_key = some new_key;
        user_id = some u.id;
      } in
      (register_user_session index session_cookie_age now s'.session_key u.id i, s')

-- The query of `get_current_user`, for a request that has not cached its user.
unfoldable pub get_current_user : List HiveUser → Session → Option HiveUser
get_current_user users s = elim s.user_id [
  | none ↦ none
  | some id ↦ first_of_rows (λ u. u.id == id && is_active u.status) users
]

module _ (iexact check_password : Text → Text → Bool) (lower : Text → Text)
    (attempts : Cache Text AttemptState text_eq) (attempts_limit window_seconds : ℕ)
    (index : Cache ℕ (List Text) ◌==◌) (session_cookie_age : ℕ) where
  -- The counts of failures, the index of sessions, and the session of the request.
  abbrev pub LoginState : Type 0
  LoginState = attempts.Store × index.Store × Session

  -- What follows `authenticate_user`.
  unfoldable pub finish_login :
      ℕ → Text → Text → Text → Directory → LoginState → Option HiveUser → LoginResponse × LoginState
  finish_login now email client_ip new_key db (a, i, s) none = (
    failure_of db.oauth_accounts (get_user_by_email iexact email db.users),
    (
      (record_failed_login lower attempts attempts_limit window_seconds now email client_ip a).1,
      i,
      s,
    ),
  )
  finish_login now email client_ip new_key db (a, i, s) (some u) =
      let (i', s') = login_user index session_cookie_age now new_key u (i, s) in
      (
        logged_in u,
        (
          reset_login_rate_limit lower attempts attempts_limit window_seconds email client_ip a,
          i',
          s',
        ),
      )

  unfoldable pub login_view :
      ℕ → Text → Text → Text → Text → Directory → LoginState → LoginResponse × LoginState
  login_view now email client_ip password new_key db (a, i, s) =
      if is_login_rate_limited lower attempts attempts_limit window_seconds now email client_ip a
      then (
        limited (
            get_login_rate_limit_remaining_seconds lower attempts attempts_limit window_seconds now
              email client_ip a),
        (a, i, s),
      )
      else finish_login now email client_ip new_key db (a, i, s)
          (authenticate_user iexact check_password email password db.users)
