-- ===== src/Core/AdminUsers/Actions.antt =====
-- What one user action of the admin console does to the table of users, to the OAuth accounts and to
-- the sessions.
use hivewiki_web.Base.{
  ℕ, ◌≡◌, ◌≢◌, refl, sym, ap, ◌∙◌, false, ◌&&◌, some, List, arith, ◌==◌, Bool-cases, Option-cases,
  Result-cases, inl, inr, ◌⊎◌, if◌then◌else◌, ok, err, length, length-take,
}
use hivewiki_web.Base.Text.{Text, strip}
use hivewiki_web.Django.Cache.{Cache}
use hivewiki_web.Django.Sessions.{SessionStore}
use hivewiki_web.Accounts.Models.{HiveUser, UserRole, user, admin, active, suspended, deleted}
use hivewiki_web.Accounts.Directory.{user_by_id, map_option, user_by_id-save_user, id-user_by_id}
use hivewiki_web.Core.AdminUsers.{
  UserAction, promote_admin, demote_admin, suspend, activate, delete, is_harmful, AdminError,
  removed_user, deleted_username_value, World, perform, read_user_action, apply_admin_user_action,
  Response, respond, admin_user_action,
}
use hivewiki_web.Core.AdminUsers.Hex.{uuid_hex, length-uuid_hex}

-- The row that a successful action leaves of the target's row.
abbrev pub written : ℕ → UserAction → HiveUser → HiveUser
written now promote_admin u = record u { role = admin; updated_at = now }
written now demote_admin u = record u { role = user; updated_at = now }
written now suspend u = record u { status = suspended; updated_at = now }
written now activate u = record u { status = active; updated_at = now }
written now delete u = removed_user now u

-- The target's rows on which an action is accepted.
abbrev pub Allowed : UserAction → HiveUser → Type 0
Allowed promote_admin u = u.role ≡ user
Allowed demote_admin u = u.role ≡ admin
Allowed suspend u = u.status ≡ active
Allowed activate u = u.status ≡ suspended
Allowed delete u = u.status ≢ deleted

id-written : (now : ℕ) (a : UserAction) (u : HiveUser) → (written now a u).id ≡ u.id
id-written now promote_admin u = refl
id-written now demote_admin u = refl
id-written now suspend u = refl
id-written now activate u = refl
id-written now delete u = refl

role_cases : (r : UserRole) → (r ≡ user) ⊎ (r ≡ admin)
role_cases user = inl refl
role_cases admin = inr refl

-- No action that is not harmful is accepted on an active admin.
harmless_refused :
    (a : UserAction) (u : HiveUser)
    → is_harmful a ≡ false
    → Allowed a u
    → u.role ≡ admin
    → u.status ≡ active
    → ⊥
harmless_refused promote_admin u h al r s = cc
harmless_refused demote_admin u h al r s = cc
harmless_refused suspend u h al r s = cc
harmless_refused activate u h al r s = cc
harmless_refused delete u h al r s = cc

-- The name of a removed user has 16 characters, the most that the column takes.
pub length-deleted_username_value : (u : HiveUser) → length (deleted_username_value u) ≡ 16
unfolding deleted_username_value
length-deleted_username_value u = omega (arith, length-take 8 (uuid_hex u.id), length-uuid_hex u.id)

module _ (cache : Cache ℕ (List Text) ◌==◌) (session_cookie_age : ℕ) (sessions : SessionStore) where
  abbrev pub Site : Type 0
  Site = World cache session_cookie_age sessions

  pub perform-users :
      (now : ℕ) (a : UserAction) (target : HiveUser) (w w' : Site) (m : Text) (j : ℕ)
      → perform cache session_cookie_age sessions now a target w ≡ ok (m, w')
      → user_by_id j w'.0.users ≡ (
          if target.id == j
          then map_option (written now a) (user_by_id j w.0.users)
          else user_by_id j w.0.users)
  unfolding perform
  perform-users now promote_admin target w w' m j h = ground (
    arith,
    user_by_id-save_user target.id j (written now promote_admin) w.0.users
        (id-written now promote_admin),
  )
  perform-users now demote_admin target w w' m j h = ground (
    arith,
    user_by_id-save_user target.id j (written now demote_admin) w.0.users
        (id-written now demote_admin),
  )
  perform-users now suspend target w w' m j h = ground (
    arith,
    user_by_id-save_user target.id j (written now suspend) w.0.users (id-written now suspend),
  )
  perform-users now activate target w w' m j h = ground (
    arith,
    user_by_id-save_user target.id j (written now activate) w.0.users (id-written now activate),
  )
  perform-users now delete target w w' m j h = ground (
    arith,
    user_by_id-save_user target.id j (written now delete) w.0.users (id-written now delete),
  )

  pub perform-Allowed :
      (now : ℕ) (a : UserAction) (target : HiveUser) (w w' : Site) (m : Text)
      → perform cache session_cookie_age sessions now a target w ≡ ok (m, w')
      → Allowed a target
  unfolding perform
  perform-Allowed now promote_admin target w w' m h = ground arith
  perform-Allowed now demote_admin target w w' m h = ground arith
  perform-Allowed now suspend target w w' m h = ground arith
  perform-Allowed now activate target w w' m h = ground arith
  perform-Allowed now delete target w w' m h = ground arith

  abbrev pub call : ℕ → HiveUser → ℕ → Text → Site → Response × Site
  call now current target_id action w =
      admin_user_action cache session_cookie_age sessions now (some current) target_id action w

  -- An action that was accepted: its name, the target's row as it was, and what is left.
  pub record Accepted (now : ℕ) (current : HiveUser) (target_id : ℕ) (action : Text) (w : Site)
      : Type 1 where
    pub what : UserAction
    pub target : HiveUser
    pub message : Text
    pub after : Site
    pub is_admin_role : current.role ≡ admin
    pub target_row : user_by_id target_id w.0.users ≡ some target
    pub target_same_id : target.id ≡ target_id
    pub not_own : (current.id == target.id && is_harmful what) ≡ false
    pub read : read_user_action (strip action) ≡ some what
    pub performed :
        perform cache session_cookie_age sessions now what target w ≡ ok (message, after)
    pub left : (call now current target_id action w).1 ≡ after

  -- A call on a row that is there, with an action that is allowed to the admin on that row.
  pub call-eq-perform :
      (now : ℕ) (current target : HiveUser) (a : UserAction) (action : Text) (w : Site)
      → current.role ≡ admin
      → (current.id == target.id && is_harmful a) ≡ false
      → user_by_id target.id w.0.users ≡ some target
      → read_user_action (strip action) ≡ some a
      → call now current target.id action w
        ≡ respond cache session_cookie_age sessions w
            (perform cache session_cookie_age sessions now a target w)
  unfolding admin_user_action apply_admin_user_action
  call-eq-perform now current target a action w role other row read =
      rw (role, row, read, other, apply_admin_user_action)

  respond_err :
      (w : Site) (e : AdminError) → (respond cache session_cookie_age sessions w (err e)).1 ≡ w
  respond_err w AdminError.integrity_error = refl
  respond_err w _ = refl

  pub outcome :
      (now : ℕ) (current : HiveUser) (target_id : ℕ) (action : Text) (w : Site)
      → ((call now current target_id action w).1 ≡ w) ⊎ Accepted now current target_id action w
  unfolding admin_user_action apply_admin_user_action
  outcome now current target_id action w = elim (role_cases current.role) [
    | inl plain ↦ inl (rw plain)
    | inr adm ↦ elim (Option-cases (user_by_id target_id w.0.users)) [
      | inl missing ↦ inl (rw (adm, missing))
      | inr (target, found) ↦ elim (Option-cases (read_user_action (strip action))) [
        | inl unknown ↦ inl (rw (adm, found, unknown, apply_admin_user_action))
        | inr (what, read) ↦ elim (Bool-cases (current.id == target.id && is_harmful what)) [
          | inl own ↦ inl (rw (adm, found, read, own, apply_admin_user_action))
          | inr other ↦
              elim (Result-cases (perform cache session_cookie_age sessions now what target w)) [
                | inl (e, raised) ↦ inl (
                    rw (adm, found, read, other, raised, apply_admin_user_action) (respond_err w e))
                | inr ((message, after), done) ↦ inr (record {
                  what = what;
                  target = target;
                  message = message;
                  after = after;
                  is_admin_role = adm;
                  target_row = found;
                  target_same_id = id-user_by_id target_id w.0.users target found;
                  not_own = other;
                  read = read;
                  performed = done;
                  left = rw (adm, found, read, other, done, apply_admin_user_action);
                })
              ]
        ]
      ]
    ]
  ]

  -- What a call leaves of the row of `j`.
  pub row_after :
      (now : ℕ) (current : HiveUser) (target_id : ℕ) (action : Text) (w : Site) (j : ℕ)
      → (o : Accepted now current target_id action w)
      → user_by_id j (call now current target_id action w).1.0.users ≡ (
          if target_id == j
          then map_option (written now o.what) (user_by_id j w.0.users)
          else user_by_id j w.0.users)
  row_after now current target_id action w j o = rw (
    o.left,
    perform-users now o.what o.target w o.after o.message j o.performed,
    o.target_same_id,
  )

  -- An action of an admin on one user leaves the row of every other user as it was.
  pub admin_user_action-others :
      (now : ℕ) (current : HiveUser) (target_id : ℕ) (action : Text) (w : Site) (j : ℕ)
      → target_id ≢ j
      → user_by_id j (call now current target_id action w).1.0.users ≡ user_by_id j w.0.users
  admin_user_action-others now current target_id action w j ne =
      elim (outcome now current target_id action w) [
        | inl same ↦ rw same
        | inr o ↦ row_after now current target_id action w j o ∙ ground arith
      ]

  -- An accepted action of an active admin is not on the admin's own row.
  pub not_own_row :
      (now : ℕ) (current : HiveUser) (target_id : ℕ) (action : Text) (w : Site)
      → Accepted now current target_id action w
      → user_by_id current.id w.0.users ≡ some current
      → current.role ≡ admin
      → current.status ≡ active
      → target_id ≢ current.id
  not_own_row now current target_id action w o row role status e =
      let same : some o.target ≡ some current =
        sym o.target_row ∙ ap (λ (n : ℕ). user_by_id n w.0.users) e ∙ row in
      let allowed = perform-Allowed now o.what o.target w o.after o.message o.performed in
      harmless_refused o.what o.target (ground (arith, o.not_own, o.target_same_id)) allowed
        (ground arith) (ground arith)

  -- An admin whose row is active with the admin role still has such a row after any action of theirs,
  -- on any user and with any text as the action.
  pub admin_user_action-keeps_actor :
      (now : ℕ) (current : HiveUser) (target_id : ℕ) (action : Text) (w : Site)
      → user_by_id current.id w.0.users ≡ some current
      → current.role ≡ admin
      → current.status ≡ active
      → (u : HiveUser) × (user_by_id current.id (call now current target_id action w).1.0.users
          ≡ some u)
        × (u.role ≡ admin)
        × (u.status ≡ active)
  admin_user_action-keeps_actor now current target_id action w row role status =
      elim (outcome now current target_id action w) [
        | inl same ↦ (current, rw same row, role, status)
        | inr o ↦ (
          current,
          row_after now current target_id action w current.id o
              ∙ ground (arith, not_own_row now current target_id action w o row role status),
          role,
          status,
        )
      ]
