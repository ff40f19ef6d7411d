-- ===== src/Core/AdminUsers.antt =====
-- The user actions of the admin console: apps/core/views.py, `admin_user_action` and
-- `_apply_admin_user_action`, with the decorators of apps/accounts/decorators.py.
pub mod Hex
pub mod Actions
pub mod Effects
pub mod Reach
mod Tests
use hivewiki_web.Base.{
  ℕ, ◌≡◌, Bool, true, false, ◌&&◌, ◌||◌, Option, none, some, List, [], ◌∷◌, ◌++◌, ◌==◌,
  if◌then◌else◌, Result, ok, err, ◌>>=◌, ◌>>◌, raise_if, discard, take,
}
use hivewiki_web.Base.Text.{Text, codes, strip, text_eq}
use hivewiki_web.Django.Cache.{Cache}
use hivewiki_web.Django.Sessions.{SessionStore}
use hivewiki_web.Accounts.Models.{
  HiveUser, OAuthAccount, UserRole, user, admin, UserStatus, active, suspended, deleted, is_active,
  is_suspended, is_deleted, is_admin,
}
use hivewiki_web.Accounts.Directory.{Directory, user_by_id, save_user, is_taken}
use hivewiki_web.Accounts.Sessions.{purge_user_sessions}
use Hex.{uuid_hex}

-- ADMIN_USER_ACTIONS
pub data UserAction : Type 0 where
  promote_admin demote_admin suspend activate delete : UserAction

-- The membership test and the comparisons of the action's name.
unfoldable pub read_user_action : Text → Option UserAction
read_user_action action =
    if text_eq action (codes "promote_admin")
    then some promote_admin
    else if text_eq action (codes "demote_admin")
    then some demote_admin
    else if text_eq action (codes "suspend")
    then some suspend
    else if text_eq action (codes "activate")
    then some activate
    else if text_eq action (codes "delete")
    then some delete
    else none

-- The ValueErrors in the order of the code, and the database's IntegrityError.
pub data AdminError : Type 0 where
  unsupported_action own_account already_admin not_admin already_suspended suspend_deleted
        already_active activate_deleted already_deleted integrity_error :
      AdminError

abbrev pub is_harmful : UserAction → Bool
is_harmful demote_admin = true
is_harmful suspend = true
is_harmful delete = true
is_harmful _ = false

unfoldable pub deleted_username_value : HiveUser → Text
deleted_username_value u = codes "deleted_" ++ take 8 (uuid_hex u.id)

unfoldable pub deleted_email_value : HiveUser → Text
deleted_email_value u = codes "deleted+" ++ take 12 (uuid_hex u.id) ++ codes "@deleted.local"

-- What `delete` writes of the user's row.
abbrev pub removed_user : ℕ → HiveUser → HiveUser
removed_user now u = record u {
  status = deleted;
  role = user;
  password_hash = none;
  profile_image = none;
  username = deleted_username_value u;
  email = deleted_email_value u;
  updated_at = now;
}

pub data Response : Type 0 where
  redirect_login forbidden not_found server_error : Response
  message_error : AdminError → Response
  message_success : Text → Response

module _ (cache : Cache ℕ (List Text) ◌==◌) (session_cookie_age : ℕ) (sessions : SessionStore) where
  -- The database, the cache with the index of sessions, and the session store.
  abbrev pub World : Type 0
  World = Directory × cache.Store × sessions.Store

  abbrev pub with_users : (List HiveUser → List HiveUser) → World → World
  with_users f (db, s, d) = (record db { users = f db.users }, s, d)

  abbrev pub purged : ℕ → ℕ → World → World
  purged now id (db, s, d) =
      let (s', d') = purge_user_sessions cache session_cookie_age sessions now id (s, d) in
      (db, s', d')

  -- The branch of each action: the target's row as it was read, and what is raised or written.
  unfoldable pub perform : ℕ → UserAction → HiveUser → World → Result AdminError (Text × World)
  perform now promote_admin target w = do
    raise_if (is_admin target.role) already_admin
    ok (
      target.username ++ codes " 사용자를 관리자로 승격했습니다.",
      with_users (save_user target.id (λ u. record u { role = admin; updated_at = now })) w,
    )
  perform now demote_admin target w =
      if is_admin target.role
      then ok (
        target.username ++ codes " 사용자의 관리자 권한을 해제했습니다.",
        with_users (save_user target.id (λ u. record u { role = user; updated_at = now })) w,
      )
      else err not_admin
  perform now suspend target w = do
    raise_if (is_suspended target.status) already_suspended
    raise_if (is_deleted target.status) suspend_deleted
    ok (
      target.username ++ codes " 사용자를 비활성화했습니다.",
      purged now target.id (
          with_users (save_user target.id (λ u. record u { status = suspended; updated_at = now }))
            w),
    )
  perform now activate target w = do
    raise_if (is_active target.status) already_active
    raise_if (is_deleted target.status) activate_deleted
    ok (
      target.username ++ codes " 사용자를 다시 활성화했습니다.",
      with_users (save_user target.id (λ u. record u { status = active; updated_at = now })) w,
    )
  perform now delete target (db, s, d) = do
    raise_if (is_deleted target.status) already_deleted
    raise_if
        (is_taken target.id (deleted_username_value target) (deleted_email_value target) db.users)
        integrity_error
    ok (
      target.username ++ codes " 사용자를 제거했습니다.",
      purged now target.id (
        record db {
          users = save_user target.id (removed_user now) db.users;
          oauth_accounts = discard (λ a. a.user_id == target.id) db.oauth_accounts;
        },
        s,
        d,
      ),
    )

  unfoldable pub apply_admin_user_action :
      ℕ → HiveUser → HiveUser → Text → World → Result AdminError (Text × World)
  apply_admin_user_action now actor target action w = elim (read_user_action action) [
    | none ↦ err unsupported_action
    | some a ↦ do
      raise_if (actor.id == target.id && is_harmful a) own_account
      perform now a target w
  ]

  -- A ValueError becomes a message; what raised has written nothing.
  abbrev pub respond : World → Result AdminError (Text × World) → Response × World
  respond w (err integrity_error) = (server_error, w)
  respond w (err e) = (message_error e, w)
  respond w (ok (message, w')) = (message_success message, w')

  -- `current` is `request.current_user`, `target_id` the id in the path, `action` the posted text.
  unfoldable pub admin_user_action : ℕ → Option HiveUser → ℕ → Text → World → Response × World
  admin_user_action now none target_id action w = (redirect_login, w)
  admin_user_action now (some current) target_id action w =
      if is_admin current.role
      then (elim (user_by_id target_id w.0.users) [
        | none ↦ (not_found, w)
        | some target ↦ respond w (apply_admin_user_action now current target (strip action) w)
      ])
      else (forbidden, w)
