-- ===== src/Accounts/OAuthFlow/Callback.antt =====
-- oauth_callback_view of apps/accounts/views.py: the answer of the provider, for a login or for a link.
use hivewiki_web.Base.{
  ℕ, Bool, not, ◌||◌, Option, none, some, List, ◌==◌, if◌then◌else◌, first_of_rows, Result, ok, err,
  ◌>>=◌,
}
use hivewiki_web.Base.Text.{Text, is_empty}
use hivewiki_web.Django.Cache.{Cache}
use hivewiki_web.Django.Signing.{Signing}
use hivewiki_web.Accounts.Models.{HiveUser, OAuthProvider, OAuthAccount, is_active}
use hivewiki_web.Accounts.Directory.{Directory}
use hivewiki_web.Accounts.OAuth.{
  Profile, LinkError, does_not_exist, account_of, link_oauth_account_to_user,
}
use hivewiki_web.Accounts.OAuth.Usernames.{iexact}
use hivewiki_web.Accounts.OAuth.SignUp.{
  SignUpError, inactive_account, same_email, get_or_create_user_from_oauth_profile,
}
use hivewiki_web.Accounts.Login.{get_current_user}
use hivewiki_web.Accounts.OAuthFlow.{
  OAuthError, logged_out, link_user_changed, link_failed, sign_up_failed, login, link, OAuthState,
  FlowSession, get_oauth_provider_config,
}
use hivewiki_web.Accounts.OAuthFlow.Exchange.{exchange_oauth_code_for_profile}
use hivewiki_web.Accounts.OAuthFlow.Views.{
  PendingConfirmation, FlowResponse, bad_response, server_error, login_error, mypage_error,
  confirm_page, linked, Site, World, logged_in_with,
}

-- The errors that are an `OAuthError`; the others are not caught.
abbrev pub sign_up_error : SignUpError → FlowResponse
sign_up_error inactive_account = login_error (sign_up_failed inactive_account)
sign_up_error same_email = login_error (sign_up_failed same_email)
sign_up_error _ = server_error

abbrev pub link_error : LinkError → FlowResponse
link_error does_not_exist = server_error
link_error e = mypage_error (link_failed e)

-- `str(current_user.id) == link_user_id`
abbrev pub is_link_user : ℕ → Option ℕ → Bool
is_link_user id none = Bool.false
is_link_user id (some j) = id == j

module _ (site : Site) (signing : Signing PendingConfirmation) (index : Cache ℕ (List Text) ◌==◌)
    (session_cookie_age : ℕ) where
  abbrev pub link_result :
      HiveUser
      → Text
      → World signing index
      → Result LinkError (OAuthAccount × Directory)
      → FlowResponse × World signing index
  link_result u next_url w (err e) = (link_error e, w)
  link_result u next_url (i, s, db) (ok (a, db')) = (linked u next_url, (i, s, db'))

  -- The callback of a link, for the current user.
  unfoldable pub link_callback :
      ℕ
      → ℕ
      → OAuthProvider
      → Profile
      → OAuthState
      → World signing index
      → Option HiveUser
      → FlowResponse × World signing index
  link_callback now id provider profile state_data w none = (mypage_error logged_out, w)
  link_callback now id provider profile state_data (i, s, db) (some u) =
      if not (is_link_user u.id state_data.link_user_id)
      then (mypage_error link_user_changed, (i, s, db))
      else link_result u state_data.next_url (i, s, db)
          (link_oauth_account_to_user site.lower now id u.id provider profile db)

  abbrev pub sign_up_result :
      ℕ
      → Text
      → Text
      → World signing index
      → Result SignUpError (HiveUser × Directory)
      → FlowResponse × World signing index
  sign_up_result now new_key next_url w (err e) = (sign_up_error e, w)
  sign_up_result now new_key next_url (i, s, db) (ok (u, db')) =
      logged_in_with site signing index session_cookie_age now new_key u next_url (i, s, db')

  -- An active user has the email of the profile, and no account is the profile's.
  abbrev pub needs_confirmation : Option OAuthAccount → Option HiveUser → Option HiveUser
  needs_confirmation none (some u) = if is_active u.status then some u else none
  needs_confirmation _ _ = none

  -- The callback of a login. `user_id` and `id` are the keys of new rows.
  unfoldable pub login_callback :
      ℕ
      → Text
      → ℕ
      → ℕ
      → OAuthProvider
      → Profile
      → OAuthState
      → World signing index
      → Option HiveUser
      → FlowResponse × World signing index
  login_callback now new_key user_id id provider profile state_data (i, s, db) (some u) = (
    confirm_page u state_data.next_url,
    (
      i,
      record s {
        pending = some (
            signing.dumps now (record {
              provider = provider;
              profile = profile;
              user_id = u.id;
              next_url = state_data.next_url;
            }));
      },
      db,
    ),
  )
  login_callback now new_key user_id id provider profile state_data (i, s, db) none =
      sign_up_result now new_key state_data.next_url (i, s, db)
        (get_or_create_user_from_oauth_profile site.fold_char site.is_alnum site.lower now user_id
          id provider profile db)

  -- `get_existing_oauth_account_for_profile` and `get_existing_user_for_oauth_email`
  abbrev pub existing_for : OAuthProvider → Profile → Directory → Option HiveUser
  existing_for provider profile db =
      needs_confirmation (account_of provider profile.provider_user_id db.oauth_accounts)
        (first_of_rows (λ u. iexact site.fold_char u.email profile.email) db.users)

  abbrev pub act_on :
      ℕ
      → Text
      → ℕ
      → ℕ
      → OAuthProvider
      → Profile
      → OAuthState
      → World signing index
      → FlowResponse × World signing index
  act_on now new_key user_id id provider profile state_data (i, s, db) = elim state_data.action [
    | link ↦
        link_callback now id provider profile state_data (i, s, db)
          (get_current_user db.users s.base)
    | login ↦
        login_callback now new_key user_id id provider profile state_data (i, s, db)
          (existing_for provider profile db)
  ]

  abbrev pub exchanged :
      ℕ
      → Text
      → ℕ
      → ℕ
      → World signing index
      → Result OAuthError (OAuthProvider × Profile × OAuthState × FlowSession signing.Token)
      → FlowResponse × World signing index
  exchanged now new_key user_id id w (err e) = (login_error e, w)
  exchanged now new_key user_id id (i, s, db) (ok (provider, profile, state_data, s')) =
      act_on now new_key user_id id provider profile state_data (i, s', db)

  -- The two calls that may raise before anything is looked up.
  abbrev pub exchange :
      Text
      → Text
      → Text
      → FlowSession signing.Token
      → Result OAuthError (OAuthProvider × Profile × OAuthState × FlowSession signing.Token)
  exchange provider code state s = do
    c ← get_oauth_provider_config site.settings provider
    (profile, state_data, s') ←
        exchange_oauth_code_for_profile site.lower site.settings site.callback_url site.client
          provider code state s
    ok (c.provider, profile, state_data, s')

  unfoldable pub oauth_callback_view :
      ℕ
      → Text
      → ℕ
      → ℕ
      → Text
      → Text
      → Text
      → World signing index
      → FlowResponse × World signing index
  oauth_callback_view now new_key user_id id provider code state (i, s, db) =
      if is_empty code || is_empty state
      then (bad_response, (i, s, db))
      else exchanged now new_key user_id id (i, s, db) (exchange provider code state s)
