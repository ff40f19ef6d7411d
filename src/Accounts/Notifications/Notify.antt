-- ===== src/Accounts/Notifications/Notify.antt =====
-- Who is told of a like, a comment or a reply: `notify_post_liked`, `notify_comment_liked` and
-- `notify_comment_created` of apps/accounts/notifications.py.
use hivewiki_web.Base.{
  ℕ, ◌+◌, ◌≡◌, Bool, true, false, not, ◌&&◌, ◌||◌, Option, none, some, List, [], ◌∷◌, ◌++◌, arith,
  ◌==◌, if◌then◌else◌, Option-cases, inl, inr,
}
use hivewiki_web.Base.Text.{Text, codes}
use hivewiki_web.Django.Cache.{Cache}
use hivewiki_web.Base.Text.{text_eq}
use hivewiki_web.Core.Models.{Post, Comment, post_title, post_summary}
use hivewiki_web.Core.CommunityContent.{or_text}
use hivewiki_web.Accounts.Models.{
  HiveUser, NotificationType, post_liked, comment_liked, post_commented, comment_replied, post,
  comment,
}
use hivewiki_web.Accounts.Notifications.{Request, Inbox, create_notification}
use hivewiki_web.Accounts.Notifications.Body.{trim_notification_body}

-- `recipient is None or recipient.pk == actor.pk`
abbrev pub is_nobody_or : ℕ → Option ℕ → Bool
is_nobody_or actor none = true
is_nobody_or actor (some u) = u == actor

-- `a != b` on two foreign keys.
abbrev pub same_user : Option ℕ → Option ℕ → Bool
same_user none none = true
same_user (some a) (some b) = a == b
same_user _ _ = false

-- The calls of `create_notification`, in order.
abbrev pub to_user : Option ℕ → (ℕ → Request) → List Request
to_user none make = []
to_user (some u) make = make u ∷ []

unfoldable pub notify_post_liked : HiveUser → Post → List Request
notify_post_liked actor p =
    if is_nobody_or actor.id p.author_user_id
    then []
    else to_user p.author_user_id (λ u. record {
      user_id = u;
      notification_type = post_liked;
      title = actor.username ++ codes "님이 회원님의 게시글을 좋아합니다.";
      body = or_text (post_title p) (post_summary p);
      target_type = some post;
      target_id = some p.id;
    })

unfoldable pub notify_comment_liked : HiveUser → Comment → List Request
notify_comment_liked actor c =
    if is_nobody_or actor.id c.author_user_id
    then []
    else to_user c.author_user_id (λ u. record {
      user_id = u;
      notification_type = comment_liked;
      title = actor.username ++ codes "님이 회원님의 댓글을 좋아합니다.";
      body = trim_notification_body 120 c.content;
      target_type = some comment;
      target_id = some c.id;
    })

abbrev pub comment_request : Comment → NotificationType → Text → ℕ → Request
comment_request c kind title u = record {
  user_id = u;
  notification_type = kind;
  title = title;
  body = trim_notification_body 120 c.content;
  target_type = some comment;
  target_id = some c.id;
}

abbrev pub is_parent_author : Post → Option Comment → Bool
is_parent_author p none = false
is_parent_author p (some parent) = same_user p.author_user_id parent.author_user_id

abbrev pub reply_request : HiveUser → Comment → Option Comment → List Request
reply_request actor c none = []
reply_request actor c (some parent) =
    if is_nobody_or actor.id parent.author_user_id
    then []
    else to_user parent.author_user_id
        (comment_request c comment_replied (actor.username ++ codes "님이 회원님의 댓글에 답글을 남겼습니다."))

unfoldable pub notify_comment_created : HiveUser → Post → Comment → Option Comment → List Request
notify_comment_created actor p c parent =
    reply_request actor c parent
    ++ (if not (is_nobody_or actor.id p.author_user_id) && not (is_parent_author p parent)
        then to_user p.author_user_id
            (comment_request c post_commented (actor.username ++ codes "님이 회원님의 게시글에 댓글을 남겼습니다."))
        else [])

-- The loop over the recipients: each call of `create_notification` with a new primary key.
module _ (uuid_text : ℕ → Text) (sha256_hex : Text → Text) (cache : Cache Text ℕ text_eq)
    (new_id : ℕ → ℕ) where
  unfoldable pub create_each :
      ℕ → ℕ → List Request → Inbox uuid_text sha256_hex cache → Inbox uuid_text sha256_hex cache
  create_each now drawn [] inbox = inbox
  create_each now drawn (r ∷ rs) inbox =
      let (made, inbox') =
        create_notification uuid_text sha256_hex cache now (new_id drawn) r inbox in
      create_each now (drawn + 1) rs inbox'

-- The number of requests for a user.
abbrev pub requests_for : ℕ → List Request → ℕ
requests_for u [] = 0
requests_for u (r ∷ rs) = (if r.user_id == u then 1 else 0) + requests_for u rs

abbrev pub parent_author : Option Comment → Option ℕ
parent_author none = none
parent_author (some parent) = parent.author_user_id

-- Of a comment, nobody but the author of the post and the author of the parent comment is told, each
-- of them once, and the one who wrote it is not told.
pub requests_for-notify_comment_created :
    (actor : HiveUser) (p : Post) (c : Comment) (parent : Option Comment) (u : ℕ)
    → requests_for u (notify_comment_created actor p c parent) ≡ (
        if not (u == actor.id)
          && (same_user (some u) p.author_user_id || same_user (some u) (parent_author parent))
        then 1
        else 0)
unfolding notify_comment_created
requests_for-notify_comment_created actor p c none u = elim (Option-cases p.author_user_id) [
  | inl e ↦ rw (notify_comment_created, e) (ground arith)
  | inr (v, e) ↦ rw (notify_comment_created, e) (ground arith)
]
requests_for-notify_comment_created actor p c (some parent) u =
    elim (Option-cases p.author_user_id) [
      | inl e ↦ elim (Option-cases parent.author_user_id) [
        | inl f ↦ rw (notify_comment_created, e, f) (ground arith)
        | inr (w, f) ↦ rw (notify_comment_created, e, f) (ground arith)
      ]
      | inr (v, e) ↦ elim (Option-cases parent.author_user_id) [
        | inl f ↦ rw (notify_comment_created, e, f) (ground arith)
        | inr (w, f) ↦ rw (notify_comment_created, e, f) (ground arith)
      ]
    ]

-- Of a like of a post, the author is told if it is another user, and nobody else.
pub requests_for-notify_post_liked :
    (actor : HiveUser) (p : Post) (u : ℕ)
    → requests_for u (notify_post_liked actor p)
      ≡ (if not (u == actor.id) && same_user (some u) p.author_user_id then 1 else 0)
unfolding notify_post_liked
requests_for-notify_post_liked actor p u = elim (Option-cases p.author_user_id) [
  | inl e ↦ rw (notify_post_liked, e) (ground arith)
  | inr (v, e) ↦ rw (notify_post_liked, e) (ground arith)
]
