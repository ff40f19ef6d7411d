-- ===== src/Accounts/OAuthFlow/Steps.antt =====
-- The requests that one session makes, with those of other sessions in between.
use hivewiki_web.Base.{ℕ, ◌≡◌, Option, none, some, List, ◌==◌}
use hivewiki_web.Base.Text.{Text}
use hivewiki_web.Django.Cache.{Cache}
use hivewiki_web.Django.Signing.{Signing}
use hivewiki_web.Accounts.Models.{HiveUser}
use hivewiki_web.Accounts.Directory.{Directory}
use hivewiki_web.Accounts.OAuthFlow.{OAuthAction, login, link, OAuthState, FlowSession}
use hivewiki_web.Accounts.OAuthFlow.Views.{
  PendingConfirmation, Site, World, login_flow_user, logout_flow_user, oauth_start_view,
  oauth_link_start_view,
}
use hivewiki_web.Accounts.OAuthFlow.Callback.{oauth_callback_view}
use hivewiki_web.Accounts.OAuthFlow.Confirm.{oauth_confirm_existing_account_view}

-- A login is for nobody yet, a link for the user of the session.
abbrev pub IsFor : OAuthAction → Option ℕ → Option ℕ → Type 0
IsFor login link_user_id user_id = link_user_id ≡ none
IsFor link link_user_id user_id = (id : ℕ) × (link_user_id ≡ some id) × (user_id ≡ some id)

abbrev pub IsForUser : Option OAuthState → Option ℕ → Type 0
IsForUser none user_id = Unit
IsForUser (some begun) user_id = IsFor begun.action begun.link_user_id user_id

module _ (site : Site) (signing : Signing PendingConfirmation) (index : Cache ℕ (List Text) ◌==◌)
    (session_cookie_age : ℕ) where
  abbrev with_tables : Directory → index.Store × FlowSession signing.Token → World signing index
  with_tables db (i, s) = (i, s, db)

  pub data Step (w : World signing index) : World signing index → Type 0 where
    start :
        (state provider next_url : Text)
        → Step w
            (oauth_start_view site signing index session_cookie_age state provider next_url w).1
    link_start :
        (state provider : Text)
        → Step w (oauth_link_start_view site signing index session_cookie_age state provider w).1
    callback :
        (now : ℕ) (new_key : Text) (user_id id : ℕ) (provider code state : Text)
        → Step w
            (oauth_callback_view site signing index session_cookie_age now new_key user_id id
              provider code state w).1
    confirm :
        (now : ℕ) (new_key : Text) (id : ℕ) (decision : Text)
        → Step w
            (oauth_confirm_existing_account_view site signing index session_cookie_age now new_key
              id decision w).1
    -- A login by the form, or a sign-up.
    log_in :
        (now : ℕ) (new_key : Text) (u : HiveUser)
        → Step w (
            with_tables w.2
              (login_flow_user site signing index session_cookie_age now new_key u (w.0, w.1)))
    log_out :
        (now : ℕ)
        → Step w (
            with_tables w.2
              (logout_flow_user site signing index session_cookie_age now w.2.users (w.0, w.1)))
    -- A request of another session, or one that does not write to this session.
    elsewhere : (i : index.Store) (db : Directory) → Step w (i, w.1, db)

  pub data Reach (w : World signing index) : World signing index → Type 0 where
    here : Reach w w
    next : {v u : World signing index} → Reach w v → Step v u → Reach w u

  -- A confirmation that is kept was signed by the program.
  abbrev pub IsSigned : Option signing.Token → Type 0
  IsSigned none = Unit
  IsSigned (some token) = (t : ℕ) × (p : PendingConfirmation) × (token ≡ signing.dumps t p)

  abbrev pub IsSound : World signing index → Type 0
  IsSound w = IsForUser w.1.oauth_state w.1.base.user_id × IsSigned w.1.pending
