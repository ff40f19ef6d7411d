-- ===== src/Core/AdminUsers/Effects.antt =====
-- The effects of suspending and of removing a user, and what no action undoes.
use hivewiki_web.Base.{
  ℕ, ◌≡◌, ◌≢◌, refl, sym, ap, ◌∙◌, false, not, ◌&&◌, none, some, List, ◌++◌, arith, ◌==◌, ==_refl,
  Bool-cases, inl, inr, any_of, any_of-discard, subst,
}
use hivewiki_web.Base.Text.{Text, codes, strip, text_eq}
use hivewiki_web.Django.Cache.{Cache}
use hivewiki_web.Django.Sessions.{SessionStore}
use hivewiki_web.Accounts.Models.{HiveUser, admin, user, active, suspended, deleted, is_deleted}
use hivewiki_web.Accounts.Directory.{user_by_id, is_taken, user_by_id-save_user}
use hivewiki_web.Accounts.Sessions.{contains, get_tracked_session_keys}
use hivewiki_web.Accounts.Sessions.Purge.{exists-purge_user_sessions}
use hivewiki_web.Core.AdminUsers.{
  UserAction, promote_admin, demote_admin, suspend, activate, delete, deleted_username_value,
  deleted_email_value, perform, read_user_action, Response, message_success,
}
use hivewiki_web.Core.AdminUsers.Actions.{
  Allowed, written, Site, call, call-eq-perform, outcome, row_after, perform-Allowed,
}

-- What stays of a removed user.
abbrev pub SameIdentity : HiveUser → HiveUser → Type 0
SameIdentity u v =
    (v.status ≡ deleted)
    × (v.username ≡ u.username)
    × (v.email ≡ u.email)
    × (v.password_hash ≡ u.password_hash)

removed_stays :
    (now : ℕ) (a : UserAction) (u : HiveUser)
    → Allowed a u
    → u.status ≡ deleted
    → SameIdentity u (written now a u)
removed_stays now promote_admin u h e = (e, refl, refl, refl)
removed_stays now demote_admin u h e = (e, refl, refl, refl)
removed_stays now suspend u h e = cc
removed_stays now activate u h e = cc
removed_stays now delete u h e = absurd (h e)

module _ (cache : Cache ℕ (List Text) ◌==◌) (session_cookie_age : ℕ) (sessions : SessionStore) where
  abbrev site_call :
      ℕ
      → HiveUser
      → ℕ
      → Text
      → Site cache session_cookie_age sessions
      → Response × Site cache session_cookie_age sessions
  site_call = call cache session_cookie_age sessions

  -- No action of an admin on any user brings a removed user back: its row keeps the status, the name,
  -- the email and the password hash.
  pub admin_user_action-removed :
      (now : ℕ) (current : HiveUser) (target_id : ℕ) (action : Text)
      (w : Site cache session_cookie_age sessions) (j : ℕ) (u : HiveUser)
      → user_by_id j w.0.users ≡ some u
      → u.status ≡ deleted
      → (v : HiveUser) × (user_by_id j (site_call now current target_id action w).1.0.users
          ≡ some v)
        × SameIdentity u v
  admin_user_action-removed now current target_id action w j u row gone =
      elim (outcome cache session_cookie_age sessions now current target_id action w) [
        | inl same ↦ (u, rw same row, (gone, refl, refl, refl))
        | inr o ↦ elim (Bool-cases (target_id == j)) [
          | inl on ↦
              let here : target_id ≡ j = ground arith in
              let same : o.target ≡ u =
                cc (sym o.target_row ∙ ap (λ (n : ℕ). user_by_id n w.0.users) here ∙ row) in
              let allowed =
                perform-Allowed cache session_cookie_age sessions now o.what o.target w o.after
                  o.message o.performed in
              (
                written now o.what u,
                row_after cache session_cookie_age sessions now current target_id action w j o
                    ∙ rw (on, row),
                removed_stays now o.what u (subst (Allowed o.what) same allowed) gone,
              )
          | inr off ↦ (
            u,
            row_after cache session_cookie_age sessions now current target_id action w j o
                ∙ rw (off, row),
            (gone, refl, refl, refl),
          )
        ]
      ]

  -- An admin who suspends another, active user: the user's row is suspended, every session that the
  -- index listed for the user is gone, the other sessions are as they were, and the index is empty.
  pub suspend_lem :
      (now : ℕ) (current target : HiveUser) (w : Site cache session_cookie_age sessions)
      (key : Text)
      → current.role ≡ admin
      → current.id ≢ target.id
      → user_by_id target.id w.0.users ≡ some target
      → target.status ≡ active
      → let (r, (db, s, d)) = site_call now current target.id (codes "suspend") w in
        (r ≡ message_success (target.username ++ codes " 사용자를 비활성화했습니다."))
        × (user_by_id target.id db.users
            ≡ some (record target { status = suspended; updated_at = now }))
        × (sessions.exists key d
            ≡ not
                (contains key (get_tracked_session_keys cache session_cookie_age now target.id w.1))
              && sessions.exists key w.2)
        × (contains key (get_tracked_session_keys cache session_cookie_age now target.id s) ≡ false)
  unfolding perform
  suspend_lem now current target w key role ne row status =
      let read : read_user_action (strip (codes "suspend")) ≡ some suspend =
        unfold read_user_action strip text_eq in refl in
      let (there, listed) =
        exists-purge_user_sessions cache session_cookie_age sessions now target.id key w.1 w.2 in
      rw
        (
          call-eq-perform cache session_cookie_age sessions now current target suspend
              (codes "suspend") w role (ground arith) row read,
          status,
        )
        (
          refl,
          user_by_id-save_user target.id target.id (written now suspend) w.0.users (λ u. refl)
              ∙ rw (==_refl, row),
          there,
          listed,
        )

  -- An admin who removes another user, none having the name and the email that removed users get: the
  -- user's row has the status deleted, the role user, no password hash, no image, and the name and the
  -- email that removed users get; the user has no OAuth account left, every session that the index listed
  -- for the user is gone, the other sessions are as they were, and the index is empty.
  pub delete_lem :
      (now : ℕ) (current target : HiveUser) (w : Site cache session_cookie_age sessions)
      (key : Text)
      → current.role ≡ admin
      → current.id ≢ target.id
      → user_by_id target.id w.0.users ≡ some target
      → target.status ≢ deleted
      → is_taken target.id (deleted_username_value target) (deleted_email_value target) w.0.users
        ≡ false
      → let (r, (db, s, d)) = site_call now current target.id (codes "delete") w in
        (r ≡ message_success (target.username ++ codes " 사용자를 제거했습니다."))
        × (user_by_id target.id db.users
            ≡ some (record target {
              status = deleted;
              role = user;
              password_hash = none;
              profile_image = none;
              username = deleted_username_value target;
              email = deleted_email_value target;
              updated_at = now;
            }))
        × (any_of (λ a. a.user_id == target.id) db.oauth_accounts ≡ false)
        × (sessions.exists key d
            ≡ not
                (contains key (get_tracked_session_keys cache session_cookie_age now target.id w.1))
              && sessions.exists key w.2)
        × (contains key (get_tracked_session_keys cache session_cookie_age now target.id s) ≡ false)
  unfolding perform
  delete_lem now current target w key role ne row there_still free =
      let read : read_user_action (strip (codes "delete")) ≡ some delete =
        unfold read_user_action strip text_eq in refl in
      let (there, listed) =
        exists-purge_user_sessions cache session_cookie_age sessions now target.id key w.1 w.2 in
      let kept : is_deleted target.status ≡ false = ground arith in
      rw
        (
          call-eq-perform cache session_cookie_age sessions now current target delete
              (codes "delete") w role (ground arith) row read,
          kept,
          free,
        )
        (
          refl,
          user_by_id-save_user target.id target.id (written now delete) w.0.users (λ u. refl)
              ∙ rw (==_refl, row),
          any_of-discard (λ a. a.user_id == target.id) w.0.oauth_accounts,
          there,
          listed,
        )
