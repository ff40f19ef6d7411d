-- ===== src/Accounts/Middleware.antt =====
-- apps/accounts/middleware.py and apps/accounts/decorators.py: what happens before a view runs, and
-- logout_user and set_browser_timezone of apps/accounts/services.py, which write to the same session.
use hivewiki_web.Base.{ℕ, Bool, true, false, not, Option, none, some, List, ◌==◌, if◌then◌else◌}
use hivewiki_web.Base.Text.{Text, is_empty, strip}
use hivewiki_web.Django.Cache.{Cache}
use hivewiki_web.Core.CommunityContent.{or_text}
use hivewiki_web.Accounts.Models.{HiveUser, is_admin}
use hivewiki_web.Accounts.OAuth.{text_or_empty}
use hivewiki_web.Accounts.Sessions.{register_user_session, unregister_user_session}
use hivewiki_web.Accounts.Login.{Session, reset_session_preserving, get_current_user}

abbrev pub id_of : Option HiveUser → Option ℕ
id_of none = none
id_of (some u) = some u.id

module _ (index : Cache ℕ (List Text) ◌==◌) (session_cookie_age : ℕ) where
  abbrev pub register_current : ℕ → Option Text → Option HiveUser → index.Store → index.Store
  register_current now key none i = i
  register_current now key (some u) i =
      register_user_session index session_cookie_age now key u.id i

  -- `CurrentUserMiddleware`: the user of the request, and the index with its session.
  unfoldable pub current_user_middleware :
      ℕ → List HiveUser → index.Store × Session → Option HiveUser × index.Store
  current_user_middleware now users (i, s) =
      let current = get_current_user users s in
      (current, register_current now s.session_key current i)

  unfoldable pub logout_user : ℕ → List HiveUser → index.Store × Session → index.Store × Session
  logout_user now users (i, s) = (
    unregister_user_session index session_cookie_age now s.session_key
        (id_of (get_current_user users s)) i,
    reset_session_preserving s,
  )

-- `is_zone` says whether ZoneInfo knows the name.
module _ (is_zone : Text → Bool) where
  unfoldable pub set_browser_timezone : Text → Session → Bool × Session
  set_browser_timezone timezone_name s =
      let name = strip timezone_name in
      if is_empty name
      then (false, s)
      else if is_zone name
      then (true, record s { timezone = some name })
      else (false, s)

-- The zone that `TimezoneMiddleware` activates.
unfoldable pub active_timezone : Text → Session → Text
active_timezone default s = or_text (text_or_empty s.timezone) default

-- What a decorated view does: the page to log in, a refusal, or the view itself with the user.
pub data Access : Type 0 where
  to_login forbidden : Access
  granted : HiveUser → Access

abbrev pub login_required : Option HiveUser → Access
login_required none = to_login
login_required (some u) = granted u

abbrev pub admin_required : Option HiveUser → Access
admin_required none = to_login
admin_required (some u) = if not (is_admin u.role) then forbidden else granted u
