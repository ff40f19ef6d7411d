-- ===== src/Accounts/Login/Tests.antt =====
-- The login form at small tables: a password fits if it is the hash, and emails are compared as they
-- are.
use Prim.{tt}
use hivewiki_web.Base.{ℕ, ◌≡◌, refl, true, false, none, some, List, [], ◌∷◌, arith, ◌==◌}
use hivewiki_web.Base.Text.{Text, codes, text_eq}
use hivewiki_web.Django.Cache.{Cache, table_cache}
use hivewiki_web.Accounts.Models.{HiveUser, user, active}
use hivewiki_web.Accounts.Directory.{Directory}
use hivewiki_web.Accounts.RateLimit.{
  AttemptState, get_login_rate_limit_state, is_login_rate_limited, reset_login_rate_limit,
}
use hivewiki_web.Accounts.RateLimit.Window.{limited_at}
use hivewiki_web.Accounts.Sessions.{contains, get_tracked_session_keys, register_user_session}
use hivewiki_web.Accounts.Login.{
  Session, get_active_user_by_email, authenticate_user, finish_login, login_user, login_view,
  get_current_user,
}
use hivewiki_web.Accounts.Login.Credentials.{IsCredential}
use hivewiki_web.Accounts.Login.Outcomes.{login_view-logged_in}
use hivewiki_web.Accounts.Login.Locked.{IsRefused, after_posts, login_view-locked}

abbrev attempts : Cache Text AttemptState text_eq
attempts = table_cache text_eq

abbrev index : Cache ℕ (List Text) ◌==◌
index = table_cache ◌==◌

abbrev as_is : Text → Text
as_is t = t

abbrev member : HiveUser
member = record {
  id = 7;
  username = codes "k";
  email = codes "k@a";
  role = user;
  password_hash = some (codes "p");
  status = active;
  profile_image = none;
  created_at = 0;
  updated_at = 0;
}

abbrev db : Directory
db = record { users = member ∷ []; oauth_accounts = [] }

abbrev no_attempts : attempts.Store
no_attempts k = none

abbrev no_sessions : index.Store
no_sessions k = none

abbrev visitor : Session
visitor = record { session_key = some (codes "o"); user_id = none; timezone = some (codes "z") }

-- The right password is refused after two wrong ones.
login_view-locked_example :
    IsRefused text_eq text_eq as_is attempts 2 600 index 60
      (codes "k@a")
      (codes "i")
      db
      3_000_000
      (codes "p")
      (codes "n")
      db
      (no_attempts, no_sessions, visitor)
      (after_posts text_eq text_eq as_is attempts 2 600 index 60
        (codes "k@a")
        (codes "i")
        db
        ((1_000_000, codes "x", codes "n") ∷ (2_000_000, codes "y", codes "n") ∷ [])
        (no_attempts, no_sessions, visitor))
unfolding get_login_rate_limit_state authenticate_user get_active_user_by_email text_eq
login_view-locked_example =
    login_view-locked text_eq text_eq as_is attempts 2 600 index 60 (codes "k@a") (codes "i") db
      1_000_000 3_000_000 (codes "x") (codes "n") (codes "p") (codes "n")
      ((2_000_000, codes "y", codes "n") ∷ []) db (no_attempts, no_sessions, visitor) (omega arith)
      refl (omega arith) (omega arith, omega arith) (refl, (refl, tt)) (omega arith) (omega arith)
      (omega arith)

abbrev member_session : Session
member_session = record {
  session_key = some (codes "n");
  user_id = some 7;
  timezone = some (codes "z");
}

abbrev cleared : attempts.Store
cleared = reset_login_rate_limit as_is attempts 2 600 (codes "k@a") (codes "i") no_attempts

abbrev listed : index.Store
listed = register_user_session index 60 3_000_000 (some (codes "n")) 7 no_sessions

login_view-logged_in_example :
    (limited_at as_is attempts 2 600 3_000_000 (codes "k@a") (codes "i") no_attempts ≡ false)
    × IsCredential text_eq text_eq (codes "k@a") (codes "p") (member ∷ []) member
    × (member.status ≡ active)
    × (member_session.user_id ≡ some member.id)
    × (contains (codes "n") (get_tracked_session_keys index 60 4_000_000 7 listed) ≡ true)
    × (limited_at as_is attempts 2 600 4_000_000 (codes "k@a") (codes "i") cleared ≡ false)
unfolding login_view finish_login login_user authenticate_user get_active_user_by_email text_eq
    is_login_rate_limited get_login_rate_limit_state
login_view-logged_in_example =
    login_view-logged_in text_eq text_eq as_is attempts 2 600 index 60 3_000_000 4_000_000
      (codes "k@a") (codes "i") (codes "p") (codes "n") db no_attempts cleared no_sessions listed
      visitor member_session member (omega arith) refl (omega arith) (omega arith) refl

current_run : get_current_user (member ∷ []) member_session ≡ some member
unfolding get_current_user
current_run = refl
