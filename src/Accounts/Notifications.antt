-- ===== src/Accounts/Notifications.antt =====
-- apps/accounts/notifications.py: the rows of notifications, and the cache with the number of unread
-- ones and with the marks that stop duplicates. `sha256_hex` is the digest of `hashlib.sha256` and
-- `uuid_text` is `str` of a UUID.
pub mod Body
pub mod Unread
pub mod Spacing
pub mod Reach
pub mod Targets
pub mod Notify
mod Tests
use hivewiki_web.Base.{
  ℕ, ◌+◌, ◌*◌, ◌-◌, Bool, true, false, not, ◌&&◌, Option, none, some, List, [], ◌∷◌, ◌++◌, ◌==◌,
  leb, if◌then◌else◌, take, length, any_of, count_of, update_of,
}
use hivewiki_web.Base.Text.{Text, codes, text_eq, is_empty, is_space, rstrip}
use hivewiki_web.Django.Cache.{Cache, second}
use hivewiki_web.Accounts.Models.{
  Notification, NotificationType, post_liked, comment_liked, post_commented, comment_replied,
  NotificationTargetType, post, comment,
}

abbrev pub unread_notification_count_ttl : ℕ
unread_notification_count_ttl = 60

abbrev pub notification_dedupe_ttl : ℕ
notification_dedupe_ttl = 30

abbrev pub type_value : NotificationType → Text
type_value post_liked = codes "post_liked"
type_value comment_liked = codes "comment_liked"
type_value post_commented = codes "post_commented"
type_value comment_replied = codes "comment_replied"

abbrev pub target_value : Option NotificationTargetType → Text
target_value none = []
target_value (some post) = codes "post"
target_value (some comment) = codes "comment"

abbrev pub same_type : NotificationType → NotificationType → Bool
same_type post_liked post_liked = true
same_type comment_liked comment_liked = true
same_type post_commented post_commented = true
same_type comment_replied comment_replied = true
same_type _ _ = false

abbrev pub same_target : NotificationTargetType → NotificationTargetType → Bool
same_target post post = true
same_target comment comment = true
same_target _ _ = false

abbrev pub same_option : {A : Type 0} → (A → A → Bool) → Option A → Option A → Bool
same_option same none none = true
same_option same (some a) (some b) = same a b
same_option same _ _ = false

-- The arguments of `create_notification`.
pub record Request : Type 0 where
  pub user_id : ℕ
  pub notification_type : NotificationType
  pub title : Text
  pub body : Text
  pub target_type : Option NotificationTargetType
  pub target_id : Option ℕ

-- `normalized_body or None`
abbrev pub text_or_none : Text → Option Text
text_or_none [] = none
text_or_none (c ∷ s) = some (c ∷ s)

-- `Notification(…)` at a time, with a new primary key.
unfoldable pub new_notification : ℕ → ℕ → Request → Notification
new_notification now id r = record {
  id = id;
  user_id = r.user_id;
  notification_type = r.notification_type;
  title = take 255 r.title;
  body = text_or_none r.body;
  target_type = r.target_type;
  target_id = r.target_id;
  is_read = false;
  created_at = now;
  read_at = none;
}

-- The columns that the query for duplicates compares, but for the time.
unfoldable pub same_content : Notification → Notification → Bool
same_content n m =
    n.user_id == m.user_id
    && same_type n.notification_type m.notification_type
    && text_eq n.title m.title
    && same_option text_eq n.body m.body
    && same_option same_target n.target_type m.target_type
    && same_option ◌==◌ n.target_id m.target_id

-- `created_at__gte=now - timedelta(seconds=NOTIFICATION_DEDUPE_TTL)`, with the other columns.
unfoldable pub is_duplicate : Notification → Notification → Bool
is_duplicate n m =
    same_content n m && leb n.created_at (m.created_at + notification_dedupe_ttl * second)

abbrev pub is_unread_of : ℕ → Notification → Bool
is_unread_of user_id n = n.user_id == user_id && not n.is_read

-- `get_notifications_for_user(user).filter(is_read=False).count()`
abbrev pub unread_rows : ℕ → List Notification → ℕ
unread_rows user_id = count_of (is_unread_of user_id)

abbrev pub set_read : ℕ → Notification → Notification
set_read now n = record n { is_read = true; read_at = some now }

module _ (uuid_text : ℕ → Text) where
  abbrev pub uuid_or_empty : Option ℕ → Text
  uuid_or_empty none = []
  uuid_or_empty (some id) = uuid_text id

  unfoldable pub unread_notification_count_cache_key : ℕ → Text
  unread_notification_count_cache_key user_id =
      codes "notifications:unread-count:" ++ uuid_text user_id

  -- The title is cut and the body is a text in the call of `_notification_dedupe_cache_key`.
  unfoldable pub notification_dedupe_cache_key : (Text → Text) → Request → Text
  notification_dedupe_cache_key sha256_hex r =
      codes "notifications:dedupe:"
      ++ sha256_hex (
          uuid_text r.user_id
          ++ codes "|"
          ++ type_value r.notification_type
          ++ codes "|"
          ++ take 255 r.title
          ++ codes "|"
          ++ r.body
          ++ codes "|"
          ++ target_value r.target_type
          ++ codes "|"
          ++ uuid_or_empty r.target_id)

module _ (uuid_text : ℕ → Text) (sha256_hex : Text → Text) (cache : Cache Text ℕ text_eq) where
  -- The cache and the table.
  abbrev pub Inbox : Type 0
  Inbox = cache.Store × List Notification

  unfoldable pub invalidate_unread_notification_count : ℕ → cache.Store → cache.Store
  invalidate_unread_notification_count user_id =
      cache.delete (unread_notification_count_cache_key uuid_text user_id)

  unfoldable pub get_unread_notification_count : ℕ → Option ℕ → Inbox → ℕ × Inbox
  get_unread_notification_count now none inbox = (0, inbox)
  get_unread_notification_count now (some user_id) (c, rows) =
      let key = unread_notification_count_cache_key uuid_text user_id in
      elim (cache.get now key c) [
        | some cached_count ↦ (cached_count, (c, rows))
        | none ↦
            let unread_count = unread_rows user_id rows in
            (unread_count, (cache.set now key unread_count unread_notification_count_ttl c, rows))
      ]

  -- What follows `cache.add`.
  unfoldable pub store_notification :
      ℕ → ℕ → Request → Bool × cache.Store → List Notification → Option Notification × Inbox
  store_notification now id r (false, c) rows = (none, (c, rows))
  store_notification now id r (true, c) rows =
      let n = new_notification now id r in
      if any_of (is_duplicate n) rows
      then (none, (c, rows))
      else (some n, (invalidate_unread_notification_count r.user_id c, n ∷ rows))

  unfoldable pub create_notification : ℕ → ℕ → Request → Inbox → Option Notification × Inbox
  unfolding store_notification
  create_notification now id r (c, rows) =
      store_notification now id r
        (cache.add now (notification_dedupe_cache_key uuid_text sha256_hex r) 1
          notification_dedupe_ttl c)
        rows

  unfoldable pub mark_notification_read : ℕ → Notification → Inbox → Inbox
  mark_notification_read now n (c, rows) = if n.is_read then (c, rows) else (
    invalidate_unread_notification_count n.user_id c,
    update_of (λ m. m.id == n.id) (set_read now) rows,
  )

  unfoldable pub mark_all_notifications_read : ℕ → ℕ → Inbox → Inbox
  mark_all_notifications_read now user_id (c, rows) = (
    invalidate_unread_notification_count user_id c,
    update_of (is_unread_of user_id) (set_read now) rows,
  )
