-- ===== src/Accounts/Notifications/Targets.antt =====
-- Where a notification leads: attach_notification_targets of apps/accounts/notifications.py, which reads
-- the posts and comments of a whole page of notifications with one query each. `community_detail_url`
-- is the path that `reverse("community_detail", …)` gives for a post.
pub mod Batch
use Prim.{tt}
use hivewiki_web.Base.{
  ℕ, ◌≡◌, refl, sym, ap, ◌∙◌, Bool, true, false, not, ◌&&◌, ◌||◌, Option, none, some, List, [], ◌∷◌,
  ◌++◌, arith, ◌==◌, if◌then◌else◌, keep, first_of_rows, any_of, All, Bool-cases, Option-cases, inl,
  inr,
}
use hivewiki_web.Base.Text.{Text, codes}
use hivewiki_web.Core.CommunityContent.{or_text}
use hivewiki_web.Core.Models.{Post, Comment, post_title, post_summary}
use hivewiki_web.Accounts.Models.{Notification, NotificationTargetType, post, comment}

-- `posts_by_id.get(id)` and `comments_by_id.get(id)` on the rows that a query returned. A comment comes
-- with its post (`select_related("post")`).
abbrev pub post_in : ℕ → List Post → Option Post
post_in id = first_of_rows (λ p. p.id == id)

abbrev pub comment_in : ℕ → List (Comment × Post) → Option (Comment × Post)
comment_in id = first_of_rows (λ c. c.0.id == id)

-- The inner join of the comments with their posts.
abbrev pub join_post : Comment → Option Post → List (Comment × Post) → List (Comment × Post)
join_post c none rows = rows
join_post c (some p) rows = (c, p) ∷ rows

unfoldable pub with_posts : List Post → List Comment → List (Comment × Post)
with_posts posts [] = []
with_posts posts (c ∷ cs) = join_post c (post_in c.post_id posts) (with_posts posts cs)

abbrev pub is_on_post : Option NotificationTargetType → Bool
is_on_post (some post) = true
is_on_post _ = false

abbrev pub is_on_comment : Option NotificationTargetType → Bool
is_on_comment (some comment) = true
is_on_comment _ = false

abbrev pub add_id : Bool → Option ℕ → List ℕ → List ℕ
add_id true (some id) ids = id ∷ ids
add_id _ _ ids = ids

-- The ids of the targets of one type.
unfoldable pub target_ids : (Option NotificationTargetType → Bool) → List Notification → List ℕ
target_ids is_on [] = []
target_ids is_on (n ∷ ns) = add_id (is_on n.target_type) n.target_id (target_ids is_on ns)

-- `post.title or post.summary or "제목 없는 게시글"`
abbrev pub shown_title : Post → Text
shown_title p = or_text (or_text (post_title p) (post_summary p)) (codes "제목 없는 게시글")

abbrev pub title_or_empty : Option Post → Text
title_or_empty none = []
title_or_empty (some p) = shown_title p

abbrev pub comment_title : Option (Comment × Post) → Text
comment_title none = []
comment_title (some (c, p)) = shown_title p

module _ (uuid_text : ℕ → Text) (community_detail_url : ℕ → Text) where
  abbrev pub comment_url : Option (Comment × Post) → Text
  comment_url none = []
  comment_url (some (c, p)) = community_detail_url c.post_id ++ codes "#comment-" ++ uuid_text c.id

  -- By the type and the id of the target.
  unfoldable pub target_url :
      Option NotificationTargetType → Option ℕ → List (Comment × Post) → Text
  target_url type none comments = []
  target_url none (some id) comments = []
  target_url (some post) (some id) comments = community_detail_url id
  target_url (some comment) (some id) comments = comment_url (comment_in id comments)

  unfoldable pub target_title :
      Option NotificationTargetType → Option ℕ → List Post → List (Comment × Post) → Text
  target_title type none posts comments = []
  target_title none (some id) posts comments = []
  target_title (some post) (some id) posts comments = title_or_empty (post_in id posts)
  target_title (some comment) (some id) posts comments = comment_title (comment_in id comments)

  -- The loop: the notifications with their URL and title.
  unfoldable pub attach_each :
      List Post → List (Comment × Post) → List Notification → List (Notification × Text × Text)
  unfolding target_url target_title
  attach_each posts comments [] = []
  attach_each posts comments (n ∷ ns) =
      (
        n,
        target_url n.target_type n.target_id comments,
        target_title n.target_type n.target_id posts comments,
      )
      ∷ attach_each posts comments ns

  unfoldable pub attach_notification_targets :
      List Post → List Comment → List Notification → List (Notification × Text × Text)
  unfolding attach_each target_ids
  attach_notification_targets posts comments ns =
      let post_ids = target_ids is_on_post ns in
      let comment_ids = target_ids is_on_comment ns in
      attach_each (keep (λ p. any_of (λ i. i == p.id) post_ids) posts)
        (keep (λ c. any_of (λ i. i == c.0.id) comment_ids) (with_posts posts comments)) ns
