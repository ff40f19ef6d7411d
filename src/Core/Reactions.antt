-- ===== src/Core/Reactions.antt =====
-- apps/core/views.py, likes and bookmarks: community_post_like_toggle, community_post_bookmark_toggle,
-- community_comment_like_toggle, and who sees a post. A row of PostLike, PostBookmark or CommentLike
-- is a mark of a user on a target. The current user is logged in.
pub mod Marks
pub mod Toggles
mod Tests
use hivewiki_web.Base.{
  ℕ, Bool, true, false, ◌&&◌, ◌||◌, Option, none, some, List, ◌∷◌, ◌==◌, if◌then◌else◌,
  first_of_rows, any_of, count_of, discard,
}
use hivewiki_web.Base.Text.{Text, text_eq}
use hivewiki_web.Django.Cache.{Cache}
use hivewiki_web.Core.Models.{Post, Comment, PostStatus, published, draft}
use hivewiki_web.Accounts.Models.{HiveUser}
use hivewiki_web.Accounts.Notifications.{Inbox}
use hivewiki_web.Accounts.Notifications.Notify.{
  notify_post_liked, notify_comment_liked, create_each, same_user,
}

pub record Mark : Type 0 where
  pub target_id : ℕ
  pub user_id : ℕ
  pub created_at : ℕ

abbrev pub is_mark : ℕ → ℕ → Mark → Bool
is_mark target user m = m.target_id == target && m.user_id == user

abbrev pub is_draft : PostStatus → Bool
is_draft draft = true
is_draft published = false

abbrev pub is_published : PostStatus → Bool
is_published published = true
is_published draft = false

abbrev pub is_kept : Option ℕ → Bool
is_kept none = true
is_kept (some t) = false

-- `_community_visible_posts_queryset(user=…)` on one row, without a tag or a wiki page selected.
unfoldable pub is_visible_to : ℕ → Post → Bool
is_visible_to user p =
    (is_published p.status || same_user p.author_user_id (some user) && is_draft p.status)
    && is_kept p.deleted_at

-- `get_object_or_404(…, pk=post_id)`
abbrev pub visible_post : ℕ → ℕ → List Post → Option Post
visible_post user post_id = first_of_rows (λ p. is_visible_to user p && p.id == post_id)

abbrev pub comment_on : ℕ → ℕ → List Comment → Option Comment
comment_on post_id comment_id =
    first_of_rows (λ c. c.post_id == post_id && is_kept c.deleted_at && c.id == comment_id)

-- `if rows.exists(): rows.delete() else: create(…)`
unfoldable pub toggle_mark : ℕ → ℕ → ℕ → List Mark → List Mark
toggle_mark now target user marks =
    if any_of (is_mark target user) marks
    then discard (is_mark target user) marks
    else record { target_id = target; user_id = user; created_at = now } ∷ marks

-- The page: the number of likes of the target and whether the user has one, or whether the user has a
-- bookmark.
pub data ToggleResponse : Type 0 where
  not_found : ToggleResponse
  toggled : ℕ → Bool → ToggleResponse
  bookmarked : Bool → ToggleResponse

abbrev pub toggle_response : ℕ → ℕ → List Mark → ToggleResponse
toggle_response target user marks =
    toggled (count_of (λ m. m.target_id == target) marks) (any_of (is_mark target user) marks)

unfoldable pub community_post_bookmark_toggle :
    ℕ → HiveUser → ℕ → List Post → List Mark → ToggleResponse × List Mark
unfolding toggle_mark
community_post_bookmark_toggle now actor post_id posts marks =
    elim (visible_post actor.id post_id posts) [
      | none ↦ (not_found, marks)
      | some p ↦
          let marks' = toggle_mark now p.id actor.id marks in
          (bookmarked (any_of (is_mark p.id actor.id) marks'), marks')
    ]

module _ (uuid_text : ℕ → Text) (sha256_hex : Text → Text) (cache : Cache Text ℕ text_eq)
    (new_id : ℕ → ℕ) where
  abbrev pub Likes : Type 0
  Likes = List Mark × Inbox uuid_text sha256_hex cache

  unfoldable pub community_post_like_toggle :
      ℕ → HiveUser → ℕ → List Post → Likes → ToggleResponse × Likes
  unfolding toggle_mark
  community_post_like_toggle now actor post_id posts (marks, inbox) =
      elim (visible_post actor.id post_id posts) [
        | none ↦ (not_found, (marks, inbox))
        | some p ↦
            let marks' = toggle_mark now p.id actor.id marks in
            let told =
              create_each uuid_text sha256_hex cache new_id now 0 (notify_post_liked actor p)
                inbox in
            (
              toggle_response p.id actor.id marks',
              (marks', if any_of (is_mark p.id actor.id) marks then inbox else told),
            )
      ]

  -- What follows the search for the post.
  unfoldable pub toggle_comment : ℕ → HiveUser → Option Comment → Likes → ToggleResponse × Likes
  unfolding toggle_mark
  toggle_comment now actor none st = (not_found, st)
  toggle_comment now actor (some c) (marks, inbox) =
      let marks' = toggle_mark now c.id actor.id marks in
      let told =
        create_each uuid_text sha256_hex cache new_id now 0 (notify_comment_liked actor c) inbox in
      (
        toggle_response c.id actor.id marks',
        (marks', if any_of (is_mark c.id actor.id) marks then inbox else told),
      )

  unfoldable pub community_comment_like_toggle :
      ℕ → HiveUser → ℕ → ℕ → List Post → List Comment → Likes → ToggleResponse × Likes
  community_comment_like_toggle now actor post_id comment_id posts comments st =
      elim (visible_post actor.id post_id posts) [
        | none ↦ (not_found, st)
        | some p ↦ toggle_comment now actor (comment_on p.id comment_id comments) st
      ]
