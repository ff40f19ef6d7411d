-- ===== src/Accounts/OAuthFlow/Views.antt =====
-- The views of a login or a link by OAuth in apps/accounts/views.py, from the start at the site to the
-- answer of the provider and the confirmation. A request runs with the index of sessions, its session
-- and the tables.
use hivewiki_web.Base.{ℕ, Bool, none, some, List, ◌==◌, Result, ok, err}
use hivewiki_web.Base.Text.{Text}
use hivewiki_web.Django.Cache.{Cache}
use hivewiki_web.Django.Signing.{Signing}
use hivewiki_web.Accounts.Models.{HiveUser, OAuthProvider}
use hivewiki_web.Accounts.Directory.{Directory}
use hivewiki_web.Accounts.OAuth.{Profile, LinkError}
use hivewiki_web.Accounts.Login.{login_user, get_current_user}
use hivewiki_web.Accounts.Middleware.{logout_user, Access, granted, login_required}
use hivewiki_web.Accounts.OAuthFlow.{
  OAuthSettings, OAuthError, login, link, FlowSession, begin_oauth_flow,
}
use hivewiki_web.Accounts.OAuthFlow.Exchange.{Client}

-- What is signed in `build_pending_oauth_confirmation`.
pub record PendingConfirmation : Type 0 where
  pub provider : OAuthProvider
  pub profile : Profile
  pub user_id : ℕ
  pub next_url : Text

-- The page or the redirect of a view, with its message.
pub data FlowResponse : Type 0 where
  to_provider : Text → FlowResponse
  to_login_page bad_response no_pending server_error : FlowResponse
  login_error mypage_error : OAuthError → FlowResponse
  confirm_page linked logged_in : HiveUser → Text → FlowResponse
  cancelled : Text → FlowResponse
  confirm_failed : LinkError → Text → FlowResponse

-- The settings and what the program calls: `mypage` is `reverse("mypage")`, `fold_char` stands for the
-- database's comparison without case, `is_alnum` and `lower` for the methods of `str`.
pub record Site : Type 0 where
  pub settings : OAuthSettings
  pub callback_url : Text → Text
  pub urlencode : List (Text × Text) → Text
  pub client : Client
  pub mypage : Text
  pub fold_char : ℕ → ℕ
  pub is_alnum : ℕ → Bool
  pub lower : Text → Text

-- The index of sessions, the session of the request, and the tables.
abbrev pub World : Signing PendingConfirmation → Cache ℕ (List Text) ◌==◌ → Type 0
World signing index = index.Store × FlowSession signing.Token × Directory

module _ (site : Site) (signing : Signing PendingConfirmation) (index : Cache ℕ (List Text) ◌==◌)
    (session_cookie_age : ℕ) where
  -- `login_user`: a flush takes the state and the confirmation out of the session.
  unfoldable pub login_flow_user :
      ℕ
      → Text
      → HiveUser
      → index.Store × FlowSession signing.Token
      → index.Store × FlowSession signing.Token
  login_flow_user now new_key u (i, s) =
      let (i', base) = login_user index session_cookie_age now new_key u (i, s.base) in
      (i', record { base = base; oauth_state = none; pending = none })

  -- `logout_user`, with the same flush.
  unfoldable pub logout_flow_user :
      ℕ
      → List HiveUser
      → index.Store × FlowSession signing.Token
      → index.Store × FlowSession signing.Token
  logout_flow_user now users (i, s) =
      let (i', base) = logout_user index session_cookie_age now users (i, s.base) in
      (i', record { base = base; oauth_state = none; pending = none })

  unfoldable pub logged_in_with :
      ℕ → Text → HiveUser → Text → World signing index → FlowResponse × World signing index
  logged_in_with now new_key u next_url (i, s, db) =
      let (i', s') = login_flow_user now new_key u (i, s) in (logged_in u next_url, (i', s', db))

  abbrev pub begun :
      World signing index
      → Result OAuthError (Text × FlowSession signing.Token)
      → FlowResponse × World signing index
  begun w (err e) = (login_error e, w)
  begun (i, s, db) (ok (url, s')) = (to_provider url, (i, s', db))

  unfoldable pub oauth_start_view :
      Text → Text → Text → World signing index → FlowResponse × World signing index
  oauth_start_view state provider next_url (i, s, db) =
      begun (i, s, db)
        (begin_oauth_flow site.settings site.callback_url site.urlencode state provider next_url
          login none s)

  abbrev pub link_begun :
      World signing index
      → Result OAuthError (Text × FlowSession signing.Token)
      → FlowResponse × World signing index
  link_begun w (err e) = (mypage_error e, w)
  link_begun (i, s, db) (ok (url, s')) = (to_provider url, (i, s', db))

  -- The view behind `login_required`.
  unfoldable pub link_start_for :
      Text → Text → World signing index → Access → FlowResponse × World signing index
  link_start_for state provider (i, s, db) (granted u) =
      link_begun (i, s, db)
        (begin_oauth_flow site.settings site.callback_url site.urlencode state provider site.mypage
          link (some u) s)
  link_start_for state provider w _ = (to_login_page, w)

  unfoldable pub oauth_link_start_view :
      Text → Text → World signing index → FlowResponse × World signing index
  oauth_link_start_view state provider (i, s, db) =
      link_start_for state provider (i, s, db) (login_required (get_current_user db.users s.base))
