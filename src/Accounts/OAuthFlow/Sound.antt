-- ===== src/Accounts/OAuthFlow/Sound.antt =====
-- What a session keeps through any sequence of requests.
use Prim.{tt}
use hivewiki_web.Base.{
  ℕ, ◌≡◌, refl, sym, ap, ◌∙◌, not, ◌&&◌, Option, none, some, List, ◌==◌, first_of_rows-holds,
  Result-cases, Option-cases, Bool-cases, inl, inr,
}
use hivewiki_web.Base.Text.{Text, codes, text_eq}
use hivewiki_web.Django.Cache.{Cache}
use hivewiki_web.Django.Signing.{Signing}
use hivewiki_web.Accounts.Models.{HiveUser, OAuthProvider, is_active}
use hivewiki_web.Accounts.OAuth.{Profile, link_oauth_account_to_user}
use hivewiki_web.Accounts.OAuth.Links.{eq-of-==}
use hivewiki_web.Accounts.OAuth.SignUp.{get_or_create_user_from_oauth_profile}
use hivewiki_web.Accounts.Login.{Session, get_current_user}
use hivewiki_web.Accounts.OAuthFlow.{
  OAuthAction, login, link, OAuthState, get_oauth_provider_config, begin_oauth_flow,
}
use hivewiki_web.Accounts.OAuthFlow.Views.{
  PendingConfirmation, Site, World, login_flow_user, logout_flow_user, logged_in_with,
  oauth_start_view, link_start_for, oauth_link_start_view,
}
use hivewiki_web.Accounts.OAuthFlow.Callback.{
  is_link_user, link_callback, login_callback, existing_for, act_on, oauth_callback_view,
}
use hivewiki_web.Accounts.OAuthFlow.Confirm.{
  max_age, active_user, confirm_for, confirm_pending, oauth_confirm_existing_account_view,
}
use hivewiki_web.Accounts.OAuthFlow.Outcomes.{popped, oauth_callback_view-cases}
use hivewiki_web.Accounts.OAuthFlow.Linked.{left_holds}
use hivewiki_web.Accounts.OAuthFlow.Steps.{
  Step, start, link_start, callback, confirm, log_in, log_out, elsewhere, Reach, here, next,
  IsSound,
}

current-user_id :
    (users : List HiveUser) (s : Session) (u : HiveUser)
    → get_current_user users s ≡ some u
    → s.user_id ≡ some u.id
unfolding get_current_user
current-user_id users s u query = elim (Option-cases s.user_id) [
  | inl e ↦ let absent = rw (get_current_user, e) at query in cc (absent)
  | inr (id, e) ↦
      let row = rw (get_current_user, e) at query in
      let tested = first_of_rows-holds (λ w. w.id == id && is_active w.status) users u row in
      e ∙ ap some (sym (eq-of-== u.id id (left_holds (u.id == id) (is_active u.status) tested)))
]

module _ (site : Site) (signing : Signing PendingConfirmation) (index : Cache ℕ (List Text) ◌==◌)
    (session_cookie_age : ℕ) where
  abbrev Sound : World signing index → Type 0
  Sound = IsSound site signing index session_cookie_age

  start-IsSound :
      (state provider next_url : Text) (w : World signing index)
      → Sound w
      → Sound (oauth_start_view site signing index session_cookie_age state provider next_url w).1
  unfolding oauth_start_view begin_oauth_flow
  start-IsSound state provider next_url (i, s, db) (f, signed) =
      elim (Result-cases (get_oauth_provider_config site.settings provider)) [
        | inl (e, raised) ↦ rw (oauth_start_view, begin_oauth_flow, raised) (f, signed)
        | inr (c, found) ↦ rw (oauth_start_view, begin_oauth_flow, found) (refl, signed)
      ]

  link_start-IsSound :
      (state provider : Text) (w : World signing index)
      → Sound w
      → Sound (oauth_link_start_view site signing index session_cookie_age state provider w).1
  unfolding oauth_link_start_view link_start_for begin_oauth_flow
  link_start-IsSound state provider (i, s, db) (f, signed) =
      elim (Option-cases (get_current_user db.users s.base)) [
        | inl e ↦ rw (oauth_link_start_view, e) (f, signed)
        | inr (u, e) ↦ elim (Result-cases (get_oauth_provider_config site.settings provider)) [
          | inl (x, raised) ↦ rw (oauth_link_start_view, e, begin_oauth_flow, raised) (f, signed)
          | inr (c, found) ↦
              rw (oauth_link_start_view, e, begin_oauth_flow, found)
                ((u.id, refl, current-user_id db.users s.base u e), signed)
        ]
      ]

  act_on-IsSound :
      (now : ℕ) (new_key : Text) (user_id id : ℕ) (p : OAuthProvider) (profile : Profile)
      (begun : OAuthState) (a : OAuthAction) (w : World signing index)
      → begun.action ≡ a
      → Sound w
      → Sound
          (act_on site signing index session_cookie_age now new_key user_id id p profile begun w).1
  unfolding link_callback login_callback logged_in_with login_flow_user
  act_on-IsSound now new_key user_id id p profile begun link (i, s, db) a (f, signed) =
      elim (Option-cases (get_current_user db.users s.base)) [
        | inl e ↦ rw (a, e) (f, signed)
        | inr (u, e) ↦ elim (Bool-cases (not (is_link_user u.id begun.link_user_id))) [
          | inl g ↦ rw (a, e, link_callback, g) (f, signed)
          | inr g ↦
              elim (Result-cases (link_oauth_account_to_user site.lower now id u.id p profile db)) [
                | inl (x, raised) ↦ rw (a, e, link_callback, g, raised) (f, signed)
                | inr (x, made) ↦ rw (a, e, link_callback, g, made) (f, signed)
              ]
        ]
      ]
  act_on-IsSound now new_key user_id id p profile begun login (i, s, db) a (f, signed) =
      elim (Option-cases (existing_for site signing index session_cookie_age p profile db)) [
        | inr (u, e) ↦ rw (a, e) (f, (now, _, refl))
        | inl e ↦
            elim (Result-cases (
              get_or_create_user_from_oauth_profile site.fold_char site.is_alnum site.lower now
                user_id id p profile db)) [
                  | inl (x, raised) ↦ rw (a, e, login_callback, raised) (f, signed)
                  | inr ((u, db'), made) ↦ rw (a, e, login_callback, made) (tt, tt)
                ]
      ]

  callback-IsSound :
      (now : ℕ) (new_key : Text) (user_id id : ℕ) (provider code state : Text)
      (w : World signing index)
      → Sound w
      → Sound
          (oauth_callback_view site signing index session_cookie_age now new_key user_id id provider
            code state w).1
  callback-IsSound now new_key user_id id provider code state w (f, signed) =
      elim (oauth_callback_view-cases site signing index session_cookie_age now new_key user_id id
        provider code state w) [
          | inl (_, _, same) ↦ rw same (f, signed)
          | inr (p, profile, begun, name, _, is_begun, acted) ↦ rw (← acted) (
              act_on-IsSound now new_key user_id id p profile begun begun.action
                (popped site signing index session_cookie_age w) refl (tt, signed))
        ]

  confirm_for-IsSound :
      (now : ℕ) (new_key : Text) (id : ℕ) (p : PendingConfirmation) (w : World signing index)
      (o : Option HiveUser)
      → Sound w
      → Sound (confirm_for site signing index session_cookie_age now new_key id p w o).1
  unfolding confirm_for logged_in_with login_flow_user
  confirm_for-IsSound now new_key id p w none h = h
  confirm_for-IsSound now new_key id p (i, s, db) (some u) h =
      elim (Result-cases
        (link_oauth_account_to_user site.lower now id u.id p.provider p.profile db)) [
          | inl (x, raised) ↦ rw (confirm_for, raised) h
          | inr ((a, db'), made) ↦ rw (confirm_for, made) (tt, tt)
        ]

  confirm-IsSound :
      (now : ℕ) (new_key : Text) (id : ℕ) (decision : Text) (w : World signing index)
      → Sound w
      → Sound
          (oauth_confirm_existing_account_view site signing index session_cookie_age now new_key id
            decision w).1
  unfolding oauth_confirm_existing_account_view confirm_pending
  confirm-IsSound now new_key id decision (i, s, db) (f, signed) = elim (Option-cases s.pending) [
    | inl e ↦ rw (oauth_confirm_existing_account_view, e) (f, tt)
    | inr (token, e) ↦ elim (Result-cases (signing.loads max_age now token)) [
      | inl (x, raised) ↦
          rw (oauth_confirm_existing_account_view, e, confirm_pending, raised) (f, tt)
      | inr (p, read) ↦ elim (Bool-cases (text_eq decision (codes "confirm"))) [
        | inr g ↦ rw (oauth_confirm_existing_account_view, e, confirm_pending, read, g) (f, tt)
        | inl g ↦
            rw (oauth_confirm_existing_account_view, e, confirm_pending, read, g)
              (confirm_for-IsSound now new_key id p (i, record s { pending = none }, db)
                (active_user site signing index session_cookie_age p.user_id db.users) (f, tt))
      ]
    ]
  ]

  Step-IsSound :
      {w v : World signing index}
      → Sound w
      → Step site signing index session_cookie_age w v
      → Sound v
  unfolding login_flow_user logout_flow_user
  Step-IsSound {w} h (start state provider next_url) = start-IsSound state provider next_url w h
  Step-IsSound {w} h (link_start state provider) = link_start-IsSound state provider w h
  Step-IsSound {w} h (callback now new_key user_id id provider code state) =
      callback-IsSound now new_key user_id id provider code state w h
  Step-IsSound {w} h (confirm now new_key id decision) = confirm-IsSound now new_key id decision w h
  Step-IsSound h (log_in now new_key u) = (tt, tt)
  Step-IsSound h (log_out now) = (tt, tt)
  Step-IsSound h (elsewhere i db) = h

  -- However many requests of the session and of others are made, a link that is begun in the session is
  -- for the user who is logged in in it, a login is for nobody, and a confirmation that is kept was
  -- signed by the program, if this is so at the start, as in a new session.
  pub Reach-IsSound :
      {w v : World signing index}
      → Sound w
      → Reach site signing index session_cookie_age w v
      → Sound v
  Reach-IsSound h here = h
  Reach-IsSound h (next r step) = Step-IsSound (Reach-IsSound h r) step
