-- ===== src/Accounts/OAuthFlow/Confirming.antt =====
-- A login by OAuth that needs a confirmation, from the start to the session of the user.
use hivewiki_web.Base.{
  ℕ, ◌≤◌, ◌+◌, ◌*◌, ◌/◌, ◌≡◌, refl, ap, ◌∙◌, true, false, ◌&&◌, none, some, List, [], ◌∷◌, ◌==◌,
  first_of_rows, any_of, ok, Bool-cases, inl, inr,
}
use hivewiki_web.Base.Text.{Text, codes, text_eq, is_empty, strip}
use hivewiki_web.Django.Cache.{Cache, second}
use hivewiki_web.Django.Signing.{Signing}
use hivewiki_web.Accounts.Models.{
  HiveUser, OAuthProvider, OAuthAccount, same_provider, active, is_active,
}
use hivewiki_web.Accounts.Directory.{Directory, user_by_id}
use hivewiki_web.Accounts.OAuth.{
  Profile, sync_profile_image_from_oauth_profile, account_of, new_account, link_found,
  link_locked_user, link_oauth_account_to_user,
}
use hivewiki_web.Accounts.OAuth.Usernames.{iexact}
use hivewiki_web.Accounts.Login.{login_user}
use hivewiki_web.Accounts.Login.Credentials.{le→leb}
use hivewiki_web.Accounts.OAuthFlow.{OAuthProviderConfig}
use hivewiki_web.Accounts.OAuthFlow.Views.{
  PendingConfirmation, confirm_page, logged_in, Site, World, login_flow_user, logged_in_with,
  oauth_start_view,
}
use hivewiki_web.Accounts.OAuthFlow.Callback.{login_callback, oauth_callback_view}
use hivewiki_web.Accounts.OAuthFlow.Linked.{is_active-of-active}
use hivewiki_web.Accounts.OAuthFlow.Confirm.{
  max_age, confirm_for, confirm_pending, oauth_confirm_existing_account_view,
}
use hivewiki_web.Accounts.OAuthFlow.Live.{begun_login, Answers, start_lem, callback_lem}

active_user_lem :
    (id : ℕ) (users : List HiveUser) (u : HiveUser)
    → user_by_id id users ≡ some u
    → is_active u.status ≡ true
    → first_of_rows (λ v. v.id == id && is_active v.status) users ≡ some u
active_user_lem id [] u row on = cc (row)
active_user_lem id (v ∷ users) u row on = elim (Bool-cases (v.id == id)) [
  | inl e ↦
      let first : some v ≡ some u = rw e at row in
      let same : v ≡ u = cc (first) in
      rw (e, ap (λ (x : HiveUser). is_active x.status) same ∙ on) first
  | inr e ↦ rw e (active_user_lem id users u (let later = rw e at row in later) on)
]

module _ (site : Site) (signing : Signing PendingConfirmation) (index : Cache ℕ (List Text) ◌==◌)
    (session_cookie_age : ℕ) where
  -- A link that nothing stands against.
  link_lem :
      (now id : ℕ) (u : HiveUser) (provider : OAuthProvider) (profile : Profile) (db : Directory)
      → user_by_id u.id db.users ≡ some u
      → u.status ≡ active
      → text_eq (site.lower (strip u.email)) (site.lower (strip profile.email)) ≡ true
      → account_of provider profile.provider_user_id db.oauth_accounts ≡ none
      → any_of (λ a. a.user_id == u.id && same_provider a.provider provider) db.oauth_accounts
        ≡ false
      → (a : OAuthAccount) × (db' : Directory) × (link_oauth_account_to_user site.lower now id u.id
            provider profile db
          ≡ ok (a, db'))
  unfolding link_oauth_account_to_user link_locked_user link_found
  link_lem now id u provider profile db row on same_email absent single =
      let new = new_account now id u provider profile in
      (
        new,
        sync_profile_image_from_oauth_profile now u profile
            (record db { oauth_accounts = new ∷ db.oauth_accounts }),
        rw
            (
              link_oauth_account_to_user,
              row,
              link_locked_user,
              is_active-of-active u on,
              same_email,
              absent,
              link_found,
              single,
            )
            refl,
      )

  -- The answer, in a session whose login was begun, if no account is the profile's and an active user
  -- has its email.
  asked_lem :
      (now : ℕ) (new_key : Text) (user_id id : ℕ) (state provider next_url code : Text)
      (c : OAuthProviderConfig) (profile : Profile) (w : World signing index) (u : HiveUser)
      → is_empty code ≡ false
      → is_empty state ≡ false
      → Answers site signing index session_cookie_age provider c code profile
      → w.1.oauth_state
        ≡ some (begun_login site signing index session_cookie_age state provider next_url)
      → account_of c.provider profile.provider_user_id w.2.oauth_accounts ≡ none
      → first_of_rows (λ v. iexact site.fold_char v.email profile.email) w.2.users ≡ some u
      → is_active u.status ≡ true
      → let token = signing.dumps now (record {
        provider = c.provider;
        profile = profile;
        user_id = u.id;
        next_url = next_url;
      }) in
        oauth_callback_view site signing index session_cookie_age now new_key user_id id provider
          code state w
        ≡ (
          confirm_page u next_url,
          (w.0, record w.1 { oauth_state = none; pending = some token }, w.2),
        )
  unfolding login_callback
  asked_lem now new_key user_id id state provider next_url code c profile w u coded stated answers
        kept absent same_email on =
      callback_lem site signing index session_cookie_age now new_key user_id id state provider
        next_url code c profile w coded stated answers kept
      ∙ rw (absent, same_email, on) refl

  confirmed_lem :
      (now t : ℕ) (new_key : Text) (id : ℕ) (p : PendingConfirmation) (w : World signing index)
      (u : HiveUser)
      → w.1.pending ≡ some (signing.dumps now p)
      → t ≤ now / second * second + max_age * second
      → u.id ≡ p.user_id
      → user_by_id u.id w.2.users ≡ some u
      → u.status ≡ active
      → text_eq (site.lower (strip u.email)) (site.lower (strip p.profile.email)) ≡ true
      → account_of p.provider p.profile.provider_user_id w.2.oauth_accounts ≡ none
      → any_of (λ a. a.user_id == u.id && same_provider a.provider p.provider) w.2.oauth_accounts
        ≡ false
      → let r =
          oauth_confirm_existing_account_view site signing index session_cookie_age t new_key id
            (codes "confirm")
            w in
        (r.0 ≡ logged_in u p.next_url) × (r.1.1.base.user_id ≡ some u.id)
  unfolding oauth_confirm_existing_account_view confirm_pending confirm_for logged_in_with
      login_flow_user login_user text_eq
  confirmed_lem now t new_key id p w u kept in_time same_id row on fits absent single =
      let (a, db', made) = link_lem t id u p.provider p.profile w.2 row on fits absent single in
      let in_force = le→leb t (now / second * second + max_age * second) in_time in
      let read = signing.loads-dumps now t max_age p in
      let found =
        active_user_lem p.user_id w.2.users u (rw (← same_id) row) (is_active-of-active u on) in
      rw
        (
          oauth_confirm_existing_account_view, kept, confirm_pending, read, in_force, found,
          confirm_for, made,
        )
        (refl, refl)

  -- A user without an account gets in by a confirmation: let the provider be configured and answer the code
  -- with a profile that no account has, and let an active user be the one whom the email of the
  -- profile finds, have it but for case and space at its ends, and have no account of the provider. A
  -- login that is begun in a session, followed there by the answer and, within the ten minutes from
  -- the second of the answer, by a confirmation, first asks for that confirmation and then logs that
  -- user in, and leads to the address that was asked for.
  pub oauth_confirm_existing_account_view-callback :
      (now t : ℕ) (key new_key : Text) (user_id id : ℕ) (state provider next_url code : Text)
      (c : OAuthProviderConfig) (profile : Profile) (w : World signing index) (u : HiveUser)
      → is_empty code ≡ false
      → is_empty state ≡ false
      → Answers site signing index session_cookie_age provider c code profile
      → account_of c.provider profile.provider_user_id w.2.oauth_accounts ≡ none
      → first_of_rows (λ v. iexact site.fold_char v.email profile.email) w.2.users ≡ some u
      → user_by_id u.id w.2.users ≡ some u
      → u.status ≡ active
      → text_eq (site.lower (strip u.email)) (site.lower (strip profile.email)) ≡ true
      → any_of (λ a. a.user_id == u.id && same_provider a.provider c.provider) w.2.oauth_accounts
        ≡ false
      → t ≤ now / second * second + max_age * second
      → let begun =
          oauth_start_view site signing index session_cookie_age state provider next_url w in
        let asked =
          oauth_callback_view site signing index session_cookie_age now key user_id id provider code
            state begun.1 in
        let r =
          oauth_confirm_existing_account_view site signing index session_cookie_age t new_key id
            (codes "confirm")
            asked.1 in
        (asked.0 ≡ confirm_page u next_url)
        × (r.0 ≡ logged_in u next_url)
        × (r.1.1.base.user_id ≡ some u.id)
  oauth_confirm_existing_account_view-callback now t key new_key user_id id state provider next_url
        code c profile w u coded stated answers absent same_email row on fits single in_time =
      let begun_world : World signing index = (
        w.0,
        record w.1 {
          oauth_state =
              some (begun_login site signing index session_cookie_age state provider next_url);
        },
        w.2,
      ) in
      let p : PendingConfirmation = record {
        provider = c.provider;
        profile = profile;
        user_id = u.id;
        next_url = next_url;
      } in
      let asked =
        asked_lem now key user_id id state provider next_url code c profile begun_world u coded
          stated answers refl absent same_email (is_active-of-active u on) in
      let asked_world : World signing index =
        (w.0, record w.1 { oauth_state = none; pending = some (signing.dumps now p) }, w.2) in
      let done =
        confirmed_lem now t new_key id p asked_world u refl in_time refl row on fits absent
          single in
      rw
        (
          start_lem site signing index session_cookie_age state provider next_url c w answers.0,
          asked,
        )
        (refl, done.0, done.1)
