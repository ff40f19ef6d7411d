-- ===== src/Accounts/Models.antt =====
-- apps/accounts/models.py: the rows of users, OAuth accounts and notifications. A UUID is the number
-- that it stands for, and a time is a number of microseconds.
use hivewiki_web.Base.{ℕ, Bool, true, false, Option}
use hivewiki_web.Base.Text.{Text}

pub data OAuthProvider : Type 0 where
  google github : OAuthProvider

pub data UserRole : Type 0 where
  user admin : UserRole

pub data UserStatus : Type 0 where
  active suspended deleted : UserStatus

pub record HiveUser : Type 0 where
  pub id : ℕ
  pub username : Text
  pub email : Text
  pub role : UserRole
  pub password_hash : Option Text
  pub status : UserStatus
  pub profile_image : Option Text
  pub created_at : ℕ
  pub updated_at : ℕ

pub record OAuthAccount : Type 0 where
  pub id : ℕ
  pub user_id : ℕ
  pub provider : OAuthProvider
  pub provider_user_id : Text
  pub provider_email : Option Text
  pub linked_at : ℕ
  pub last_login_at : Option ℕ

pub data NotificationType : Type 0 where
  post_liked comment_liked post_commented comment_replied : NotificationType

pub data NotificationTargetType : Type 0 where
  post comment : NotificationTargetType

pub record Notification : Type 0 where
  pub id : ℕ
  pub user_id : ℕ
  pub notification_type : NotificationType
  pub title : Text
  pub body : Option Text
  pub target_type : Option NotificationTargetType
  pub target_id : Option ℕ
  pub is_read : Bool
  pub created_at : ℕ
  pub read_at : Option ℕ

abbrev pub same_provider : OAuthProvider → OAuthProvider → Bool
same_provider google google = true
same_provider github github = true
same_provider _ _ = false

abbrev pub is_active : UserStatus → Bool
is_active active = true
is_active _ = false

abbrev pub is_suspended : UserStatus → Bool
is_suspended suspended = true
is_suspended _ = false

abbrev pub is_deleted : UserStatus → Bool
is_deleted deleted = true
is_deleted _ = false

abbrev pub is_admin : UserRole → Bool
is_admin admin = true
is_admin user = false
