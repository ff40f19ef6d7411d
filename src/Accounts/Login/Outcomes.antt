-- ===== src/Accounts/Login/Outcomes.antt =====
-- Who is logged in by the form.
use Prim.{absurd}
use hivewiki_web.Base.{
  ℕ, ◌+◌, ◌*◌, ◌≤◌, ◌<◌, ◌≡◌, sym, ap, ◌∙◌, Bool, true, false, Option, none, some, List, ◌==◌,
  Bool-cases, inl, inr,
}
use hivewiki_web.Base.Text.{Text, text_eq, text_eq_refl, is_empty}
use hivewiki_web.Django.Cache.{Cache, second}
use hivewiki_web.Accounts.Models.{HiveUser, active}
use hivewiki_web.Accounts.Directory.{Directory}
use hivewiki_web.Accounts.RateLimit.{AttemptState, reset_login_rate_limit}
use hivewiki_web.Accounts.RateLimit.Window.{limited_at, reset_login_rate_limit_lem}
use hivewiki_web.Accounts.Sessions.{contains, get_tracked_session_keys, register_user_session}
use hivewiki_web.Accounts.Sessions.Index.{contains-register_user_session}
use hivewiki_web.Accounts.Login.{
  Session, LoginResponse, logged_in, get_active_user_by_email, get_user_by_email, authenticate_user,
  login_user, finish_login, login_view, LoginState,
}
use hivewiki_web.Accounts.Login.Credentials.{IsCredential, verify_lem, active_found, not_logged_in}

module _ (iexact check_password : Text → Text → Bool) (lower : Text → Text)
    (attempts : Cache Text AttemptState text_eq) (attempts_limit window_seconds : ℕ)
    (index : Cache ℕ (List Text) ◌==◌) (session_cookie_age : ℕ) where
  abbrev pub posted :
      ℕ
      → Text
      → Text
      → Text
      → Text
      → Directory
      → LoginState iexact check_password lower attempts attempts_limit window_seconds index
          session_cookie_age
      → LoginResponse
        × LoginState iexact check_password lower attempts attempts_limit window_seconds index
            session_cookie_age
  posted =
      login_view iexact check_password lower attempts attempts_limit window_seconds index
        session_cookie_age

  abbrev finished :
      ℕ
      → Text
      → Text
      → Text
      → Directory
      → LoginState iexact check_password lower attempts attempts_limit window_seconds index
          session_cookie_age
      → Option HiveUser
      → LoginResponse
        × LoginState iexact check_password lower attempts attempts_limit window_seconds index
            session_cookie_age
  finished =
      finish_login iexact check_password lower attempts attempts_limit window_seconds index
        session_cookie_age

  finish_login_lem :
      (now : ℕ) (email ip new_key : Text) (db : Directory) (a a' : attempts.Store)
      (i i' : index.Store) (s s' : Session) (o : Option HiveUser) (u : HiveUser)
      → finished now email ip new_key db (a, i, s) o ≡ (logged_in u, (a', i', s'))
      → (o ≡ some u)
        × (a' ≡ reset_login_rate_limit lower attempts attempts_limit window_seconds email ip a)
        × (i' ≡ register_user_session index session_cookie_age now (some new_key) u.id i)
        × (s'.user_id ≡ some u.id)
  unfolding finish_login login_user
  finish_login_lem now email ip new_key db a a' i i' s s' none u h = absurd (
      not_logged_in (get_user_by_email iexact email db.users) db.oauth_accounts u (ap (λ r. r.0) h))
  finish_login_lem now email ip new_key db a a' i i' s s' (some v) u h =
      let said = ap (λ r. r.0) h in
      let same : v ≡ u = cc (said) in
      (
        ap some same,
        sym (ap (λ r. r.1.0) h),
        sym (ap (λ r. r.1.1) h)
            ∙ ap
                (λ (w : HiveUser).
                  register_user_session index session_cookie_age now (some new_key) w.id i)
                same,
        sym (ap (λ r. r.1.2.user_id) h) ∙ ap (λ (w : HiveUser). some w.id) same,
      )

  credential :
      (email password : Text) (users : List HiveUser) (u : HiveUser)
      → authenticate_user iexact check_password email password users ≡ some u
      → IsCredential iexact check_password email password users u
  unfolding authenticate_user
  credential email password users u h =
      verify_lem iexact check_password password (get_active_user_by_email iexact email users) u h

  -- With a positive limit and a new key that is not empty: whoever is logged in was not limited, is the
  -- active user that the email finds, and gave the password of that row. Afterwards the session is
  -- that user's, the index of sessions lists the new key for the user while its entry lasts, and the
  -- limit does not hold.
  pub login_view-logged_in :
      (now t : ℕ) (email ip password new_key : Text) (db : Directory) (a a' : attempts.Store)
      (i i' : index.Store) (s s' : Session) (u : HiveUser)
      → 0 < attempts_limit
      → is_empty new_key ≡ false
      → now ≤ t
      → t < now + session_cookie_age * second
      → posted now email ip password new_key db (a, i, s) ≡ (logged_in u, (a', i', s'))
      → (limited_at lower attempts attempts_limit window_seconds now email ip a ≡ false)
        × IsCredential iexact check_password email password db.users u
        × (u.status ≡ active)
        × (s'.user_id ≡ some u.id)
        × (contains new_key (get_tracked_session_keys index session_cookie_age t u.id i') ≡ true)
        × (limited_at lower attempts attempts_limit window_seconds t email ip a' ≡ false)
  unfolding login_view
  login_view-logged_in now t email ip password new_key db a a' i i' s s' u pos keyed le lt done =
      elim (Bool-cases (limited_at lower attempts attempts_limit window_seconds now email ip a)) [
        | inl e ↦ let no = rw (login_view, e) at done in let said = ap (λ r. r.0) no in cc (said)
        | inr e ↦
            let on = rw (login_view, e) at done in
            let (who, cleared, listed, session) =
              finish_login_lem now email ip new_key db a a' i i' s s'
                (authenticate_user iexact check_password email password db.users) u on in
            let (found, hash, fits) = credential email password db.users u who in
            let (same_email, is_on) = active_found iexact email db.users u found in
            (
              e,
              (found, hash, fits),
              is_on,
              session,
              rw (
                listed,
                contains-register_user_session index session_cookie_age now t u.id new_key new_key i
                    le lt,
                keyed,
                text_eq_refl new_key,
              ),
              rw cleared (
                  reset_login_rate_limit_lem lower attempts attempts_limit window_seconds t email ip
                    a pos),
            )
      ]
