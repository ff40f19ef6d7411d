-- ===== src/Accounts/OAuthFlow/Linked.antt =====
-- Who gets an account linked by the answer of a provider.
use hivewiki_web.Base.{
  ℕ, ◌≡◌, refl, sym, ap, subst, ◌∙◌, Bool, true, false, not, ◌&&◌, Option, none, some, List, [],
  ◌∷◌, ◌==◌, first_of_rows, first_of_rows-holds, Result, ok, err, Result-cases, Bool-cases,
  Option-cases, inl, inr,
}
use hivewiki_web.Base.Text.{Text, text_eq, strip}
use hivewiki_web.Django.Cache.{Cache}
use hivewiki_web.Django.Signing.{Signing}
use hivewiki_web.Accounts.Models.{HiveUser, OAuthProvider, OAuthAccount, active, is_active}
use hivewiki_web.Accounts.Directory.{Directory, user_by_id}
use hivewiki_web.Accounts.OAuth.{Profile, LinkError, link_oauth_account_to_user}
use hivewiki_web.Accounts.OAuth.Links.{eq-of-==, IsLinking, link_oauth_account_to_user_lem}
use hivewiki_web.Accounts.OAuth.SignUp.{get_or_create_user_from_oauth_profile}
use hivewiki_web.Accounts.Login.{get_current_user}
use hivewiki_web.Accounts.OAuthFlow.{OAuthAction, login, link, OAuthState, FlowSession, value_of}
use hivewiki_web.Accounts.OAuthFlow.Matching.{IsBegun, IsAnswer}
use hivewiki_web.Accounts.OAuthFlow.Views.{PendingConfirmation, linked, Site, World, logged_in_with}
use hivewiki_web.Accounts.OAuthFlow.Callback.{
  is_link_user, link_result, link_callback, login_callback, existing_for, act_on,
  oauth_callback_view,
}
use hivewiki_web.Accounts.OAuthFlow.Outcomes.{
  linked_user, link_error-linked_user, sign_up_error-linked_user, popped, oauth_callback_view-cases,
}

-- The first row of an id, if it is active, is the first active row of that id.
pub active-user_by_id :
    (id : ℕ) (users : List HiveUser) (u v : HiveUser)
    → user_by_id id users ≡ some v
    → is_active v.status ≡ true
    → first_of_rows (λ w. w.id == id && is_active w.status) users ≡ some u
    → v ≡ u
active-user_by_id id [] u v found on query = cc (found)
active-user_by_id id (w ∷ users) u v found on query = elim (Bool-cases (w.id == id)) [
  | inl e ↦
      let same : some w ≡ some v = rw e at found in
      let eq : w ≡ v = cc (same) in
      let on' : is_active w.status ≡ true = ap (λ (x : HiveUser). is_active x.status) eq ∙ on in
      let first : some w ≡ some u = rw (e, on') at query in sym eq ∙ cc (first)
  | inr e ↦
      active-user_by_id id users u v (let later = rw e at found in later) on
        (let later = rw e at query in later)
]

pub is_active-of-active : (u : HiveUser) → u.status ≡ active → is_active u.status ≡ true
is_active-of-active u h = rw h refl

is_link_user_lem : (id : ℕ) (o : Option ℕ) → not (is_link_user id o) ≡ false → o ≡ some id
is_link_user_lem id none h = cc (h)
is_link_user_lem id (some j) h = elim (Bool-cases (id == j)) [
  | inl e ↦ ap some (sym (eq-of-== id j e))
  | inr e ↦ let no = rw e at h in cc (no)
]

pub left_holds : (a b : Bool) → a && b ≡ true → a ≡ true
left_holds true b h = refl
left_holds false b h = cc (h)

module _ (site : Site) (signing : Signing PendingConfirmation) (index : Cache ℕ (List Text) ◌==◌)
    (session_cookie_age : ℕ) where
  link_result_lem :
      (u v : HiveUser) (n m : Text) (w w' : World signing index)
      (r : Result LinkError (OAuthAccount × Directory))
      → link_result site signing index session_cookie_age u n w r ≡ (linked v m, w')
      → (a : OAuthAccount) × (db' : Directory) × (r ≡ ok (a, db'))
        × (u ≡ v)
        × (w' ≡ (w.0, w.1, db'))
  link_result_lem u v n m w w' (err e) h =
      let none_some = sym (link_error-linked_user e) ∙ ap (λ r. linked_user r.0) h in cc (none_some)
  link_result_lem u v n m (i, s, db) w' (ok (a, db')) h =
      let who : some (u, n) ≡ some (v, m) = ap (λ r. linked_user r.0) h in
      (a, db', refl, cc (who), sym (ap (λ r. r.1) h))

  -- What a link has tested, and what it did.
  abbrev pub IsLinkFor :
      OAuthProvider
      → Profile
      → OAuthState
      → World signing index
      → HiveUser
      → World signing index
      → Type 0
  IsLinkFor provider profile begun (i, s, db) u (i', s', db') =
      (begun.link_user_id ≡ some u.id)
      × (get_current_user db.users s.base ≡ some u)
      × (u.status ≡ active)
      × (text_eq (site.lower (strip u.email)) (site.lower (strip profile.email)) ≡ true)
      × IsLinking u.id provider profile.provider_user_id db.oauth_accounts db'.oauth_accounts
      × (i' ≡ i)
      × (s' ≡ s)

  current-user_by_id :
      (s : FlowSession signing.Token) (users : List HiveUser) (u v : HiveUser)
      → get_current_user users s.base ≡ some u
      → user_by_id u.id users ≡ some v
      → v.status ≡ active
      → v ≡ u
  unfolding get_current_user
  current-user_by_id s users u v query found on = elim (Option-cases s.base.user_id) [
    | inl e ↦ let no = rw (get_current_user, e) at query in cc (no)
    | inr (id, e) ↦
        let row = rw (get_current_user, e) at query in
        let tested = first_of_rows-holds (λ w. w.id == id && is_active w.status) users u row in
        let same_id = eq-of-== u.id id (left_holds (u.id == id) (is_active u.status) tested) in
        active-user_by_id id users u v (rw (← same_id) found) (is_active-of-active v on) row
  ]

  link_callback-IsLinkFor :
      (now id : ℕ) (provider : OAuthProvider) (profile : Profile) (begun : OAuthState)
      (w w' : World signing index) (o : Option HiveUser) (u : HiveUser) (next_url : Text)
      → get_current_user w.2.users w.1.base ≡ o
      → link_callback site signing index session_cookie_age now id provider profile begun w o
        ≡ (linked u next_url, w')
      → IsLinkFor provider profile begun w u w'
  unfolding link_callback
  link_callback-IsLinkFor now id provider profile begun w w' none u next_url query h =
      let who : none ≡ some (u, next_url) = ap (λ r. linked_user r.0) h in cc (who)
  link_callback-IsLinkFor now id provider profile begun (i, s, db) w' (some v) u next_url query h =
      elim (Bool-cases (not (is_link_user v.id begun.link_user_id))) [
        | inl e ↦
            let no = rw (link_callback, e) at h in
            let who : none ≡ some (u, next_url) = ap (λ r. linked_user r.0) no in cc (who)
        | inr e ↦
            let done = rw (link_callback, e) at h in
            let (a, db', linked_ok, same, after) =
              link_result_lem v u begun.next_url next_url (i, s, db) w'
                (link_oauth_account_to_user site.lower now id v.id provider profile db) done in
            let ((x, found, on, same_email), links) =
              link_oauth_account_to_user_lem site.lower now id v.id provider profile db db' a
                linked_ok in
            let row = current-user_by_id s db.users v x query found on in
            subst (λ (y : HiveUser). IsLinkFor provider profile begun (i, s, db) y w') same
              (rw after (
                is_link_user_lem v.id begun.link_user_id e,
                query,
                subst (λ (y : HiveUser). y.status ≡ active) row on,
                subst
                    (λ (y : HiveUser).
                      text_eq (site.lower (strip y.email)) (site.lower (strip profile.email))
                      ≡ true)
                    row same_email,
                links,
                refl,
                refl,
              ))
      ]

  login_callback-linked_user :
      (now : ℕ) (new_key : Text) (user_id id : ℕ) (provider : OAuthProvider) (profile : Profile)
      (begun : OAuthState) (w : World signing index) (o : Option HiveUser)
      → linked_user
          (login_callback site signing index session_cookie_age now new_key user_id id provider
            profile begun w o).0
        ≡ none
  unfolding login_callback logged_in_with
  login_callback-linked_user now new_key user_id id provider profile begun w (some u) = refl
  login_callback-linked_user now new_key user_id id provider profile begun w none =
      elim (Result-cases (
        get_or_create_user_from_oauth_profile site.fold_char site.is_alnum site.lower now user_id id
          provider profile w.2)) [
            | inl (e, raised) ↦ rw (login_callback, raised) (sign_up_error-linked_user e)
            | inr (x, made) ↦ rw (login_callback, made) refl
          ]

  act_on-linked :
      (now : ℕ) (new_key : Text) (user_id id : ℕ) (p : OAuthProvider) (profile : Profile)
      (begun : OAuthState) (a : OAuthAction) (w w' : World signing index) (u : HiveUser)
      (next_url : Text)
      → begun.action ≡ a
      → act_on site signing index session_cookie_age now new_key user_id id p profile begun w
        ≡ (linked u next_url, w')
      → (begun.action ≡ link) × IsLinkFor p profile begun w u w'
  unfolding login_callback link_callback
  act_on-linked now new_key user_id id p profile begun link w w' u next_url a h = (
    a,
    link_callback-IsLinkFor now id p profile begun w w' (get_current_user w.2.users w.1.base) u
        next_url refl (let done = rw a at h in done),
  )
  act_on-linked now new_key user_id id p profile begun login w w' u next_url a h =
      let done = rw a at h in
      let who : none ≡ some (u, next_url) =
        sym (
          login_callback-linked_user now new_key user_id id p profile begun w
            (existing_for site signing index session_cookie_age p profile w.2))
        ∙ ap (λ r. linked_user r.0) done in
      cc (who)

  -- An answer that links an account is one to a link that was begun in this session, for the user who is
  -- logged in in it: the provider and the state of the answer are those that the session keeps, and the
  -- state is used up, and the profile is the one that the provider answers the code with. The user is
  -- active and has the email of the profile, but for case and space at its ends. Afterwards the account of the profile belongs to that user and every other one to whom it
  -- did, no link is doubled if none was, and the login and the index of sessions are as before.
  pub oauth_callback_view-linked :
      (now : ℕ) (new_key : Text) (user_id id : ℕ) (provider code state : Text)
      (w w' : World signing index) (u : HiveUser) (next_url : Text)
      → oauth_callback_view site signing index session_cookie_age now new_key user_id id provider
          code state w
        ≡ (linked u next_url, w')
      → (p : OAuthProvider) × (profile : Profile) × (begun : OAuthState) × (value_of p ≡ provider)
        × IsAnswer site.lower site.settings site.callback_url site.client provider code p profile
        × IsBegun provider state w.1.oauth_state begun
        × (begun.action ≡ link)
        × IsLinkFor p profile begun (popped site signing index session_cookie_age w) u w'
  unfolding oauth_callback_view
  oauth_callback_view-linked now new_key user_id id provider code state w w' u next_url h =
      elim (oauth_callback_view-cases site signing index session_cookie_age now new_key user_id id
        provider code state w) [
          | inl (unlinked, _, _) ↦
              let who : none ≡ some (u, next_url) = sym unlinked ∙ ap (λ r. linked_user r.0) h in
              cc (who)
          | inr (p, profile, begun, name, is_answer, is_begun, acted) ↦
              let (is_link, for_user) =
                act_on-linked now new_key user_id id p profile begun begun.action
                  (popped site signing index session_cookie_age w) w' u next_url refl (acted ∙ h) in
              (p, profile, begun, name, is_answer, is_begun, is_link, for_user)
        ]
