-- ===== src/Accounts/Notifications/Tests.antt =====
-- Notifications at a table for a cache, with keys and digests that are short.
use hivewiki_web.Base.{ℕ, List, ◌≡◌, refl, none, some, [], ◌∷◌, arith}
use hivewiki_web.Base.Text.{Text, codes, text_eq, rstrip}
use hivewiki_web.Django.Cache.{Cache, table_cache}
use hivewiki_web.Core.Models.{Post, Comment, published}
use hivewiki_web.Accounts.Models.{HiveUser, Notification, user, active, post_liked, post, comment}
use hivewiki_web.Accounts.Notifications.Targets.{
  with_posts, attach_each, attach_notification_targets,
}
use hivewiki_web.Accounts.Notifications.Targets.Batch.{attach_notification_targets-eq-each}
use hivewiki_web.Accounts.Notifications.{
  Request, Inbox, new_notification, unread_rows, unread_notification_count_cache_key,
  notification_dedupe_cache_key, invalidate_unread_notification_count,
  get_unread_notification_count, store_notification, create_notification,
}
use hivewiki_web.Accounts.Notifications.Body.{trim_notification_body}
use hivewiki_web.Accounts.Notifications.Spacing.{IsSpaced}
use hivewiki_web.Accounts.Notifications.Reach.{Reach, Reach-IsSpaced, Reach-unread_count}

abbrev counts : Cache Text ℕ text_eq
counts = table_cache text_eq

abbrev one_letter : ℕ → Text
one_letter n = n ∷ []

abbrev as_is : Text → Text
as_is t = t

one_letter_apart : (a b : ℕ) → one_letter a ≡ one_letter b → a ≡ b
one_letter_apart a b h = cc (h)

abbrev like : Request
like = record {
  user_id = 7;
  notification_type = post_liked;
  title = codes "a";
  body = codes "b";
  target_type = some post;
  target_id = some 9;
}

abbrev nothing : Inbox one_letter as_is counts
nothing = (λ k. none, [])

abbrev liked : Inbox one_letter as_is counts
liked = (create_notification one_letter as_is counts 5_000_000 1 like nothing).1

liked_twice :
    Reach one_letter as_is counts one_letter_apart 6_000_000
      ((create_notification one_letter as_is counts 6_000_000 2 like liked).1)
liked_twice = Reach.create 2 like (
    Reach.wait 6_000_000 (omega arith)
      (Reach.create 1 like (Reach.start 5_000_000 (λ k. none) (λ t k. refl))))

Reach-IsSpaced_example :
    IsSpaced ((create_notification one_letter as_is counts 6_000_000 2 like liked).1.1)
Reach-IsSpaced_example = Reach-IsSpaced one_letter as_is counts one_letter_apart liked_twice

Reach-unread_count_example :
    let after = (create_notification one_letter as_is counts 6_000_000 2 like liked).1 in
    (get_unread_notification_count one_letter as_is counts 6_000_000 (some 7) after).0
    ≡ unread_rows 7 after.1
Reach-unread_count_example =
    Reach-unread_count one_letter as_is counts one_letter_apart 7 liked_twice

count_run : (get_unread_notification_count one_letter as_is counts 6_000_000 (some 7) liked).0 ≡ 1
unfolding get_unread_notification_count create_notification store_notification
    invalidate_unread_notification_count unread_notification_count_cache_key
    notification_dedupe_cache_key text_eq new_notification
count_run = refl

abbrev actor : HiveUser
actor = record {
  id = 3;
  username = codes "k";
  email = codes "k@a";
  role = user;
  password_hash = none;
  status = active;
  profile_image = none;
  created_at = 0;
  updated_at = 0;
}

abbrev own_post : Post
own_post = record {
  id = 9;
  author_user_id = some 7;
  content_markdown = codes "x";
  title_cache = [];
  body_markdown_cache = [];
  summary_cache = [];
  status = published;
  created_at = 0;
  updated_at = 0;
  deleted_at = none;
}

abbrev comment_by : ℕ → Comment
comment_by u = record {
  id = 11;
  post_id = 9;
  author_user_id = some u;
  parent_comment_id = none;
  content = codes "hi";
  created_at = 0;
  updated_at = 0;
  deleted_at = none;
}

trim_run : trim_notification_body 4 (codes " ab\n cd") ≡ codes "a..."
unfolding trim_notification_body rstrip
trim_run = refl

abbrev page : List Notification
page =
    new_notification 5 1 like
    ∷ new_notification 6 2 (record like { target_type = some comment; target_id = some 11 })
    ∷ []

attach_notification_targets-eq-each_example :
    attach_notification_targets one_letter one_letter (own_post ∷ []) (comment_by 3 ∷ []) page
    ≡ attach_each one_letter one_letter
        (own_post ∷ [])
        (with_posts (own_post ∷ []) (comment_by 3 ∷ []))
        page
attach_notification_targets-eq-each_example =
    attach_notification_targets-eq-each one_letter one_letter (own_post ∷ []) (comment_by 3 ∷ [])
      page
