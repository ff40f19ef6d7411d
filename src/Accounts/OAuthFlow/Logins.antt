-- ===== src/Accounts/OAuthFlow/Logins.antt =====
-- Who is logged in by the answer of a provider.
use hivewiki_web.Base.{
  ℕ, ◌≡◌, ◌⊎◌, refl, sym, ap, ◌∙◌, subst, Bool, false, not, Option, none, some, List, ◌==◌,
  first_of_rows, any_of, Result, ok, err, Result-cases, Option-cases, Bool-cases, inl, inr,
}
use hivewiki_web.Base.Text.{Text, IsDigit}
use hivewiki_web.Django.Cache.{Cache}
use hivewiki_web.Django.Signing.{Signing}
use hivewiki_web.Accounts.Models.{HiveUser, OAuthProvider, OAuthAccount, is_active}
use hivewiki_web.Accounts.Directory.{Directory, user_by_id, id-user_by_id}
use hivewiki_web.Accounts.OAuth.{Profile, account_of, link_oauth_account_to_user}
use hivewiki_web.Accounts.OAuth.Usernames.{iexact}
use hivewiki_web.Accounts.OAuth.SignUp.{
  SignUpError, known_account, new_account_for, by_account, get_or_create_user_from_oauth_profile,
}
use hivewiki_web.Accounts.OAuth.SignUp.Outcomes.{
  IsSignedUp, get_or_create_user_from_oauth_profile_lem,
}
use hivewiki_web.Accounts.Login.{get_current_user, login_user}
use hivewiki_web.Accounts.OAuthFlow.{OAuthAction, login, link, OAuthState, value_of}
use hivewiki_web.Accounts.OAuthFlow.Matching.{IsBegun, IsAnswer}
use hivewiki_web.Accounts.OAuthFlow.Views.{
  PendingConfirmation, logged_in, Site, World, login_flow_user, logged_in_with,
}
use hivewiki_web.Accounts.OAuthFlow.Callback.{
  is_link_user, link_callback, login_callback, existing_for, act_on, oauth_callback_view,
}
use hivewiki_web.Accounts.OAuthFlow.Outcomes.{
  logged_user, link_error-logged_user, sign_up_error-logged_user, popped, oauth_callback_view-cases,
}

abbrev user_of : Result SignUpError (HiveUser × Directory) → Option HiveUser
user_of (err e) = none
user_of (ok (u, db)) = some u

module _ (fold_char : ℕ → ℕ) where
  -- The account of the profile is the user's, or no user has its email.
  abbrev pub IsOwn : OAuthProvider → Profile → Directory → HiveUser → Type 0
  IsOwn provider profile db u =
      ((a : OAuthAccount) × (account_of provider profile.provider_user_id db.oauth_accounts
          ≡ some a)
        × (u.id ≡ a.user_id))
      ⊎ (first_of_rows (λ v. iexact fold_char v.email profile.email) db.users ≡ none)

  known_account-id :
      (now : ℕ) (profile : Profile) (db db' : Directory) (a : OAuthAccount) (o : Option HiveUser)
      (u : HiveUser)
      → user_by_id a.user_id db.users ≡ o
      → known_account now profile db a o ≡ ok (u, db')
      → u.id ≡ a.user_id
  unfolding known_account
  known_account-id now profile db db' a none u found h = cc (h)
  known_account-id now profile db db' a (some v) u found h =
      elim (Bool-cases (is_active v.status)) [
        | inr off ↦ let refused = rw (known_account, off) at h in cc (refused)
        | inl on ↦
            let done = rw (known_account, on) at h in
            let who : some v ≡ some u = ap user_of done in
            let same : v ≡ u = cc (who) in
            ap (λ (x : HiveUser). x.id) (sym same) ∙ id-user_by_id a.user_id db.users v found
      ]

  module _ (is_alnum : ℕ → Bool) (lower : Text → Text) where
    new_account_for-no_email :
        (now user_id id : ℕ) (provider : OAuthProvider) (profile : Profile) (db db' : Directory)
        (u : HiveUser) (o : Option HiveUser)
        → new_account_for fold_char is_alnum lower now user_id id provider profile db o
          ≡ ok (u, db')
        → o ≡ none
    unfolding new_account_for
    new_account_for-no_email now user_id id provider profile db db' u none h = refl
    new_account_for-no_email now user_id id provider profile db db' u (some v) h =
        elim (Bool-cases (is_active v.status)) [
          | inr off ↦ let refused = rw (new_account_for, off) at h in cc (refused)
          | inl on ↦ let refused = rw (new_account_for, on) at h in cc (refused)
        ]

    pub get_or_create-IsOwn :
        (now user_id id : ℕ) (provider : OAuthProvider) (profile : Profile) (db db' : Directory)
        (u : HiveUser)
        → get_or_create_user_from_oauth_profile fold_char is_alnum lower now user_id id provider
            profile db
          ≡ ok (u, db')
        → IsOwn provider profile db u
    unfolding get_or_create_user_from_oauth_profile by_account
    get_or_create-IsOwn now user_id id provider profile db db' u h =
        elim (Option-cases (account_of provider profile.provider_user_id db.oauth_accounts)) [
          | inr (a, e) ↦ inl (
            a,
            e,
            known_account-id now profile db db' a (user_by_id a.user_id db.users) u refl
                (let done = rw (get_or_create_user_from_oauth_profile, e) at h in done),
          )
          | inl e ↦ inr (
              new_account_for-no_email now user_id id provider profile db db' u
                (first_of_rows (λ v. iexact fold_char v.email profile.email) db.users)
                (let done = rw (get_or_create_user_from_oauth_profile, e) at h in done))
        ]

module _ (site : Site) (signing : Signing PendingConfirmation) (index : Cache ℕ (List Text) ◌==◌)
    (session_cookie_age : ℕ) where
  -- The session is the user's, and nothing of a flow is left in it.
  abbrev pub IsSessionOf : HiveUser → World signing index → Type 0
  IsSessionOf u (i, s, db) =
      (s.base.user_id ≡ some u.id) × (s.oauth_state ≡ none) × (s.pending ≡ none)

  pub logged_in_with_lem :
      (now : ℕ) (new_key : Text) (u v : HiveUser) (n m : Text) (w w' : World signing index)
      → logged_in_with site signing index session_cookie_age now new_key v n w ≡ (logged_in u m, w')
      → (v ≡ u) × (n ≡ m) × IsSessionOf u w' × (w'.2 ≡ w.2)
  unfolding logged_in_with login_flow_user login_user
  logged_in_with_lem now new_key u v n m (i, s, db) w' h =
      let who : some (v, n) ≡ some (u, m) = ap (λ r. logged_user r.0) h in
      let same : v ≡ u = cc (who) in
      (
        same,
        cc (who),
        (
          sym (ap (λ r. r.1.1.base.user_id) h) ∙ ap (λ (x : HiveUser). some x.id) same,
          sym (ap (λ r. r.1.1.oauth_state) h),
          sym (ap (λ r. r.1.1.pending) h),
        ),
        sym (ap (λ r. r.1.2) h),
      )

  link_callback-logged_user :
      (now id : ℕ) (provider : OAuthProvider) (profile : Profile) (begun : OAuthState)
      (w : World signing index) (o : Option HiveUser)
      → logged_user
          (link_callback site signing index session_cookie_age now id provider profile begun w o).0
        ≡ none
  unfolding link_callback
  link_callback-logged_user now id provider profile begun w none = refl
  link_callback-logged_user now id provider profile begun w (some v) =
      elim (Bool-cases (not (is_link_user v.id begun.link_user_id))) [
        | inl e ↦ rw (link_callback, e) refl
        | inr e ↦
            elim (Result-cases
              (link_oauth_account_to_user site.lower now id v.id provider profile w.2)) [
                | inl (x, raised) ↦ rw (link_callback, e, raised) (link_error-logged_user x)
                | inr (x, made) ↦ rw (link_callback, e, made) refl
              ]
      ]

  -- What a login by the answer of a provider has tested, and what it did.
  abbrev pub IsLoginFor :
      OAuthProvider → Profile → World signing index → HiveUser → World signing index → Type 0
  IsLoginFor provider profile w u w' =
      IsOwn site.fold_char provider profile w.2 u
      × IsSignedUp site.fold_char provider profile w.2 u w'.2
      × IsSessionOf u w'

  module _ (keeps : (c : ℕ) → IsDigit c → site.fold_char c ≡ c) where
    login_callback-IsLoginFor :
        (now : ℕ) (new_key : Text) (user_id id : ℕ) (provider : OAuthProvider) (profile : Profile)
        (begun : OAuthState) (w w' : World signing index) (o : Option HiveUser) (u : HiveUser)
        (next_url : Text)
        → any_of (λ a. a.user_id == user_id) w.2.oauth_accounts ≡ false
        → login_callback site signing index session_cookie_age now new_key user_id id provider
            profile begun w o
          ≡ (logged_in u next_url, w')
        → (next_url ≡ begun.next_url) × IsLoginFor provider profile w u w'
    unfolding login_callback
    login_callback-IsLoginFor now new_key user_id id provider profile begun w w' (some v) u next_url
          fresh h =
        let who : none ≡ some (u, next_url) = ap (λ r. logged_user r.0) h in cc (who)
    login_callback-IsLoginFor now new_key user_id id provider profile begun (i, s, db) w' none u
          next_url fresh h =
        elim (Result-cases (
          get_or_create_user_from_oauth_profile site.fold_char site.is_alnum site.lower now user_id
            id provider profile db)) [
              | inl (e, raised) ↦
                  let refused = rw (login_callback, raised) at h in
                  let who = sym (sign_up_error-logged_user e) ∙ ap (λ r. logged_user r.0) refused in
                  cc (who)
              | inr ((v, db'), made) ↦
                  let done = rw (login_callback, made) at h in
                  let (same, same_url, of_user, after) =
                    logged_in_with_lem now new_key u v begun.next_url next_url (i, s, db') w'
                      done in
                  let signed_up =
                    get_or_create_user_from_oauth_profile_lem site.fold_char keeps site.is_alnum
                      site.lower now user_id id provider profile db db' v fresh made in
                  let own =
                    get_or_create-IsOwn site.fold_char site.is_alnum site.lower now user_id id
                      provider profile db db' v made in
                  (
                    sym same_url,
                    (
                      subst (λ (x : HiveUser). IsOwn site.fold_char provider profile db x) same own,
                      subst (λ (x : HiveUser). IsSignedUp site.fold_char provider profile db x w'.2)
                          same (rw after signed_up),
                      of_user,
                    ),
                  )
            ]

    act_on-IsLoginFor :
        (now : ℕ) (new_key : Text) (user_id id : ℕ) (p : OAuthProvider) (profile : Profile)
        (begun : OAuthState) (a : OAuthAction) (w w' : World signing index) (u : HiveUser)
        (next_url : Text)
        → begun.action ≡ a
        → any_of (λ b. b.user_id == user_id) w.2.oauth_accounts ≡ false
        → act_on site signing index session_cookie_age now new_key user_id id p profile begun w
          ≡ (logged_in u next_url, w')
        → (begun.action ≡ login) × (next_url ≡ begun.next_url) × IsLoginFor p profile w u w'
    unfolding login_callback link_callback
    act_on-IsLoginFor now new_key user_id id p profile begun login w w' u next_url a fresh h =
        let (same_url, for_user) =
          login_callback-IsLoginFor now new_key user_id id p profile begun w w'
            (existing_for site signing index session_cookie_age p profile w.2) u next_url fresh
            (let done = rw a at h in done) in
        (a, same_url, for_user)
    act_on-IsLoginFor now new_key user_id id p profile begun link w w' u next_url a fresh h =
        let done = rw a at h in
        let who : none ≡ some (u, next_url) =
          sym (
            link_callback-logged_user now id p profile begun w
              (get_current_user w.2.users w.1.base))
          ∙ ap (λ r. logged_user r.0) done in
        cc (who)

    -- Let `fold_char` keep the digits, and let no account belong to the key of the new row. An answer that
    -- logs somebody in is one to a login that was begun in this session with this provider and this
    -- state, and the profile is the one that the provider answers the code with. Nobody is logged in by
    -- an email alone: the account of the profile was that user's before, or no user had the email of
    -- the profile. The user is active and has that account
    -- afterwards, no link is doubled and no two users get one name or one email if none were, and
    -- the session is the user's, with nothing of the flow left in it.
    pub oauth_callback_view-logged_in :
        (now : ℕ) (new_key : Text) (user_id id : ℕ) (provider code state : Text)
        (w w' : World signing index) (u : HiveUser) (next_url : Text)
        → any_of (λ a. a.user_id == user_id) w.2.oauth_accounts ≡ false
        → oauth_callback_view site signing index session_cookie_age now new_key user_id id provider
            code state w
          ≡ (logged_in u next_url, w')
        → (p : OAuthProvider) × (profile : Profile) × (begun : OAuthState) × (value_of p ≡ provider)
          × IsAnswer site.lower site.settings site.callback_url site.client provider code p profile
          × IsBegun provider state w.1.oauth_state begun
          × (begun.action ≡ login)
          × (next_url ≡ begun.next_url)
          × IsLoginFor p profile w u w'
    oauth_callback_view-logged_in now new_key user_id id provider code state w w' u next_url fresh
          h =
        elim (oauth_callback_view-cases site signing index session_cookie_age now new_key user_id id
          provider code state w) [
            | inl (_, unlogged, _) ↦
                let who : none ≡ some (u, next_url) = sym unlogged ∙ ap (λ r. logged_user r.0) h in
                cc (who)
            | inr (p, profile, begun, name, is_answer, is_begun, acted) ↦
                let (is_login, same_url, for_user) =
                  act_on-IsLoginFor now new_key user_id id p profile begun begun.action
                    (popped site signing index session_cookie_age w) w' u next_url refl fresh
                    (acted ∙ h) in
                (p, profile, begun, name, is_answer, is_begun, is_login, same_url, for_user)
          ]
