-- ===== src/Accounts/OAuthFlow/Live.antt =====
-- A login by OAuth that goes well, from the start to the session of the user.
use hivewiki_web.Base.{ℕ, ◌≡◌, refl, ap, false, none, some, List, ◌==◌, update_of, ok}
use hivewiki_web.Base.Text.{Text, text_eq_refl, is_empty}
use hivewiki_web.Django.Cache.{Cache}
use hivewiki_web.Django.Signing.{Signing}
use hivewiki_web.Accounts.Models.{HiveUser, OAuthProvider, OAuthAccount, active}
use hivewiki_web.Accounts.Directory.{Directory, user_by_id}
use hivewiki_web.Accounts.OAuth.{
  Profile, refreshed, sync_profile_image_from_oauth_profile, account_of,
}
use hivewiki_web.Accounts.OAuth.SignUp.{
  known_account, by_account, get_or_create_user_from_oauth_profile,
}
use hivewiki_web.Accounts.Login.{login_user}
use hivewiki_web.Accounts.OAuthFlow.{
  OAuthProviderConfig, login, OAuthState, FlowSession, get_oauth_provider_config, begin_oauth_flow,
}
use hivewiki_web.Accounts.OAuthFlow.Exchange.{
  profile_of, token_form, exchange_with, exchange_oauth_code_for_profile,
}
use hivewiki_web.Accounts.OAuthFlow.Views.{
  PendingConfirmation, logged_in, Site, World, login_flow_user, logged_in_with, oauth_start_view,
}
use hivewiki_web.Accounts.OAuthFlow.Callback.{login_callback, act_on, exchange, oauth_callback_view}

module _ (site : Site) (signing : Signing PendingConfirmation) (index : Cache ℕ (List Text) ◌==◌)
    (session_cookie_age : ℕ) where
  -- What a login begins.
  abbrev pub begun_login : Text → Text → Text → OAuthState
  begun_login state provider next_url = record {
    provider = provider;
    state = state;
    next_url = next_url;
    action = login;
    link_user_id = none;
  }

  -- The provider answers the code with a profile.
  abbrev pub Answers : Text → OAuthProviderConfig → Text → Profile → Type 0
  Answers provider c code profile =
      (get_oauth_provider_config site.settings provider ≡ ok c)
      × (profile_of site.lower site.client c (
            site.client.post_form c.token_url
              (token_form site.lower site.settings site.callback_url c provider code))
          ≡ ok profile)

  pub start_lem :
      (state provider next_url : Text) (c : OAuthProviderConfig) (w : World signing index)
      → get_oauth_provider_config site.settings provider ≡ ok c
      → (oauth_start_view site signing index session_cookie_age state provider next_url w).1
        ≡ (w.0, record w.1 { oauth_state = some (begun_login state provider next_url) }, w.2)
  unfolding oauth_start_view begin_oauth_flow
  start_lem state provider next_url c w found = rw (oauth_start_view, begin_oauth_flow, found) refl

  exchange_lem :
      (state provider next_url code : Text) (c : OAuthProviderConfig) (profile : Profile)
      (s : FlowSession signing.Token)
      → Answers provider c code profile
      → s.oauth_state ≡ some (begun_login state provider next_url)
      → exchange site signing index session_cookie_age provider code state s
        ≡ ok (
          c.provider,
          profile,
          begun_login state provider next_url,
          record s { oauth_state = none },
        )
  unfolding exchange_oauth_code_for_profile exchange_with
  exchange_lem state provider next_url code c profile s (found, answered) kept =
      rw
        (
          found,
          exchange_oauth_code_for_profile,
          kept,
          exchange_with,
          text_eq_refl provider,
          text_eq_refl state,
          found,
          answered,
        )
        refl

  pub callback_lem :
      (now : ℕ) (new_key : Text) (user_id id : ℕ) (state provider next_url code : Text)
      (c : OAuthProviderConfig) (profile : Profile) (w : World signing index)
      → is_empty code ≡ false
      → is_empty state ≡ false
      → Answers provider c code profile
      → w.1.oauth_state ≡ some (begun_login state provider next_url)
      → oauth_callback_view site signing index session_cookie_age now new_key user_id id provider
          code state w
        ≡ act_on site signing index session_cookie_age now new_key user_id id c.provider profile
            (begun_login state provider next_url)
            (w.0, record w.1 { oauth_state = none }, w.2)
  unfolding oauth_callback_view
  callback_lem now new_key user_id id state provider next_url code c profile w coded stated answers
        kept =
      rw
        (
          oauth_callback_view,
          coded,
          stated,
          exchange_lem state provider next_url code c profile w.1 answers kept,
        )
        refl

  known_lem :
      (now user_id id : ℕ) (provider : OAuthProvider) (profile : Profile) (db : Directory)
      (a : OAuthAccount) (u : HiveUser)
      → account_of provider profile.provider_user_id db.oauth_accounts ≡ some a
      → user_by_id a.user_id db.users ≡ some u
      → u.status ≡ active
      → (db' : Directory) × (get_or_create_user_from_oauth_profile site.fold_char site.is_alnum
            site.lower now user_id id provider profile db
          ≡ ok (u, db'))
  unfolding get_or_create_user_from_oauth_profile by_account known_account
  known_lem now user_id id provider profile db a u known owner on = (
    sync_profile_image_from_oauth_profile now u profile (record db {
      oauth_accounts = update_of (λ b. b.id == a.id) (refreshed now profile) db.oauth_accounts;
    }),
    rw (get_or_create_user_from_oauth_profile, known, by_account, owner, known_account, on) refl,
  )

  -- A user with an account gets in: let the provider be configured and answer the code with a profile. A
  -- login that is begun in a session, followed in that session by the answer with the code and the
  -- state of the login, logs in the user to whom the account of the profile belongs then, if active,
  -- whatever others have done between, and leads to the address that was asked for.
  pub oauth_callback_view-start :
      (now : ℕ) (new_key : Text) (user_id id : ℕ) (state provider next_url code : Text)
      (c : OAuthProviderConfig) (profile : Profile) (w : World signing index) (i : index.Store)
      (db : Directory) (a : OAuthAccount) (u : HiveUser)
      → is_empty code ≡ false
      → is_empty state ≡ false
      → Answers provider c code profile
      → account_of c.provider profile.provider_user_id db.oauth_accounts ≡ some a
      → user_by_id a.user_id db.users ≡ some u
      → u.status ≡ active
      → let begun =
          oauth_start_view site signing index session_cookie_age state provider next_url w in
        let r =
          oauth_callback_view site signing index session_cookie_age now new_key user_id id provider
            code state
            (i, begun.1.1, db) in
        (r.0 ≡ logged_in u next_url) × (r.1.1.base.user_id ≡ some u.id)
  unfolding login_callback logged_in_with login_flow_user login_user
  oauth_callback_view-start now new_key user_id id state provider next_url code c profile w i db a u
        coded stated answers known owner on =
      let begun =
        oauth_start_view site signing index session_cookie_age state provider next_url w in
      let (db', made) = known_lem now user_id id c.provider profile db a u known owner on in
      let kept =
        ap (λ (v : World signing index). v.1.oauth_state)
          (start_lem state provider next_url c w answers.0) in
      let through =
        callback_lem now new_key user_id id state provider next_url code c profile
          (i, begun.1.1, db) coded stated answers kept in
      rw (through, known, login_callback, made) (refl, refl)
