-- ===== src/Core/AdminUsers/Tests.antt =====
-- The user actions on a table of three users.
use hivewiki_web.Base.{
  ℕ, ◌≡◌, ◌≢◌, refl, false, not, ◌&&◌, ◌||◌, none, some, List, [], ◌∷◌, arith, ◌==◌, any_of,
  if◌then◌else◌,
}
use hivewiki_web.Base.Text.{Text, codes, text_eq, strip}
use hivewiki_web.Django.Cache.{Cache, table_cache}
use hivewiki_web.Django.Sessions.{key_store}
use hivewiki_web.Accounts.Models.{
  HiveUser, OAuthAccount, UserRole, user, admin, UserStatus, active, suspended, deleted,
}
use hivewiki_web.Accounts.Directory.{user_by_id}
use hivewiki_web.Accounts.Sessions.{contains, get_tracked_session_keys}
use hivewiki_web.Core.AdminUsers.{
  World, deleted_username_value, deleted_email_value, admin_user_action, apply_admin_user_action,
  read_user_action, perform, message_success,
}
use hivewiki_web.Core.AdminUsers.Hex.{uuid_hex}
use hivewiki_web.Core.AdminUsers.Actions.{call, admin_user_action-others}
use hivewiki_web.Core.AdminUsers.Effects.{
  SameIdentity, admin_user_action-removed, suspend_lem, delete_lem,
}
use hivewiki_web.Core.AdminUsers.Reach.{
  HasAdmin, Reach, here, next, act, Reach-HasAdmin, Reach-removed,
}

abbrev member : ℕ → Text → UserRole → UserStatus → HiveUser
member id name role status = record {
  id = id;
  username = name;
  email = name;
  role = role;
  password_hash = some (codes "hash");
  status = status;
  profile_image = none;
  created_at = 0;
  updated_at = 0;
}

abbrev boss : HiveUser
boss = member 1 (codes "boss") admin active

abbrev reader : HiveUser
reader = member 2 (codes "reader") user active

abbrev gone : HiveUser
gone = member 3 (codes "deleted_0") user deleted

abbrev index : Cache ℕ (List Text) ◌==◌
index = table_cache ◌==◌

-- The reader is logged in with one session, and so is somebody else with another.
abbrev site : World index 1_209_600 key_store
site = (
  record { users = boss ∷ reader ∷ gone ∷ []; oauth_accounts = [] },
  λ u. if u == 2 then some (codes "s1" ∷ [], 1_000_000_000) else none,
  λ k. text_eq k (codes "s1") || text_eq k (codes "s2"),
)

admin_user_action-others_example :
    user_by_id 3 (call index 1_209_600 key_store 5 boss 2 (codes " suspend ") site).1.0.users
    ≡ some gone
admin_user_action-others_example =
    admin_user_action-others index 1_209_600 key_store 5 boss 2 (codes " suspend ") site 3
      (omega arith)

admin_user_action-removed_example :
    (v : HiveUser) × (user_by_id 3
        (call index 1_209_600 key_store 5 boss 3 (codes "activate") site).1.0.users
      ≡ some v)
    × SameIdentity gone v
admin_user_action-removed_example =
    admin_user_action-removed index 1_209_600 key_store 5 boss 3 (codes "activate") site 3 gone refl
      refl

suspend_lem_example :
    let (r, (db, s, d)) = call index 1_209_600 key_store 5 boss 2 (codes "suspend") site in
    (r ≡ message_success (codes "reader 사용자를 비활성화했습니다."))
    × (user_by_id 2 db.users ≡ some (record reader { status = suspended; updated_at = 5 }))
    × (d (codes "s1")
        ≡ not (contains (codes "s1") (get_tracked_session_keys index 1_209_600 5 2 site.1))
          && site.2 (codes "s1"))
    × (contains (codes "s1") (get_tracked_session_keys index 1_209_600 5 2 s) ≡ false)
suspend_lem_example =
    suspend_lem index 1_209_600 key_store 5 boss reader site (codes "s1") refl (omega arith) refl
      refl

active_ne_deleted : active ≢ deleted
active_ne_deleted e = cc

delete_lem_example :
    let (r, (db, s, d)) = call index 1_209_600 key_store 5 boss 2 (codes "delete") site in
    (r ≡ message_success (codes "reader 사용자를 제거했습니다."))
    × (user_by_id 2 db.users
        ≡ some (record reader {
          status = deleted;
          role = user;
          password_hash = none;
          profile_image = none;
          username = deleted_username_value reader;
          email = deleted_email_value reader;
          updated_at = 5;
        }))
    × (any_of (λ (a : OAuthAccount). a.user_id == 2) db.oauth_accounts ≡ false)
    × (d (codes "s2")
        ≡ not (contains (codes "s2") (get_tracked_session_keys index 1_209_600 5 2 site.1))
          && site.2 (codes "s2"))
    × (contains (codes "s2") (get_tracked_session_keys index 1_209_600 5 2 s) ≡ false)
unfolding deleted_username_value deleted_email_value uuid_hex text_eq
delete_lem_example =
    delete_lem index 1_209_600 key_store 5 boss reader site (codes "s2") refl (omega arith) refl
      active_ne_deleted refl

-- The admin suspends the reader and then tries to remove their own account.
abbrev later : World index 1_209_600 key_store
later =
    (call index 1_209_600 key_store 6 boss 1 (codes "delete")
      (call index 1_209_600 key_store 5 boss 2 (codes "suspend") site).1).1

boss_stays :
    user_by_id 1 (call index 1_209_600 key_store 5 boss 2 (codes "suspend") site).1.0.users
    ≡ some boss
boss_stays =
    admin_user_action-others index 1_209_600 key_store 5 boss 2 (codes "suspend") site 1
      (omega arith)

two_steps : Reach index 1_209_600 key_store site later
two_steps =
    next (next here (act 5 boss 2 (codes "suspend") refl refl))
      (act 6 boss 1 (codes "delete") boss_stays refl)

Reach-HasAdmin_example : HasAdmin index 1_209_600 key_store later
Reach-HasAdmin_example = Reach-HasAdmin index 1_209_600 key_store (boss, refl, refl, refl) two_steps

Reach-removed_example :
    (u' : HiveUser) × (user_by_id 3 later.0.users ≡ some u') × SameIdentity gone u'
Reach-removed_example = Reach-removed index 1_209_600 key_store 3 gone refl refl two_steps

-- `promote_admin` does not look at the status: a removed user gets the admin role.
promotes_removed :
    user_by_id 3 (call index 1_209_600 key_store 5 boss 3 (codes "promote_admin") site).1.0.users
    ≡ some (record gone { role = admin; updated_at = 5 })
unfolding admin_user_action apply_admin_user_action read_user_action perform text_eq strip
promotes_removed = refl
