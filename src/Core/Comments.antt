-- ===== src/Core/Comments.antt =====
-- apps/core/views.py, comments: community_comment_create, community_comment_edit, and how the comments of
-- a post are put together for its page. The current user is logged in. The table of comments has the
-- newest row first.
pub mod Threads
pub mod Ancestors
pub mod Tree
mod Tests
use hivewiki_web.Base.{
  ℕ, zero, suc, Bool, true, false, not, ◌&&◌, Option, none, some, List, [], ◌∷◌, ◌++◌, ◌==◌,
  if◌then◌else◌, first_of_rows, update_of, keep, Result, ok, err, length,
}
use hivewiki_web.Base.Text.{Text, text_eq}
use hivewiki_web.Django.Cache.{Cache}
use hivewiki_web.Core.Models.{Post, Comment}
use hivewiki_web.Core.Forms.{FormError, clean_content}
use hivewiki_web.Core.Reactions.{visible_post, comment_on, is_kept}
use hivewiki_web.Accounts.Models.{HiveUser}
use hivewiki_web.Accounts.Notifications.{Inbox}
use hivewiki_web.Accounts.Notifications.Notify.{notify_comment_created, create_each, same_user}

-- The page: a redirect to the post, or the form again with its error.
pub data CommentResponse : Type 0 where
  not_found redirected : CommentResponse
  refused : FormError → CommentResponse

abbrev pub id_of : Option Comment → Option ℕ
id_of none = none
id_of (some c) = some c.id

-- CommentForm.save of a new comment.
abbrev pub new_comment : ℕ → ℕ → HiveUser → Post → Option Comment → Text → Comment
new_comment now id author post parent content = record {
  id = id;
  post_id = post.id;
  author_user_id = some author.id;
  parent_comment_id = id_of parent;
  content = content;
  created_at = now;
  updated_at = now;
  deleted_at = none;
}

-- `get_object_or_404(…)` of the parent, where the request names one; `none` is the 404.
abbrev pub found_parent : ℕ → Option ℕ → List Comment → Option (Option Comment)
found_parent post_id none comments = some none
found_parent post_id (some id) comments = elim (comment_on post_id id comments) [
  | none ↦ none
  | some c ↦ some (some c)
]

abbrev pub own_comment_on : ℕ → ℕ → ℕ → List Comment → Option Comment
own_comment_on user post_id comment_id = first_of_rows (λ c.
    c.post_id == post_id
    && is_kept c.deleted_at
    && same_user c.author_user_id (some user)
    && c.id == comment_id)

-- The edit of a comment on a post that the user sees.
unfoldable pub edit_found :
    ℕ → Option Comment → Text → List Comment → CommentResponse × List Comment
edit_found now none content comments = (not_found, comments)
edit_found now (some c) content comments = elim (clean_content content) [
  | err e ↦ (refused e, comments)
  | ok cleaned ↦ (
    redirected,
    update_of (λ d. d.id == c.id) (λ d. record d { content = cleaned; updated_at = now }) comments,
  )
]

unfoldable pub community_comment_edit :
    ℕ → HiveUser → ℕ → ℕ → Text → List Post → List Comment → CommentResponse × List Comment
unfolding edit_found
community_comment_edit now actor post_id comment_id content posts comments =
    elim (visible_post actor.id post_id posts) [
      | none ↦ (not_found, comments)
      | some p ↦ edit_found now (own_comment_on actor.id p.id comment_id comments) content comments
    ]

module _ (uuid_text : ℕ → Text) (sha256_hex : Text → Text) (cache : Cache Text ℕ text_eq)
    (new_id : ℕ → ℕ) where
  abbrev pub Discussion : Type 0
  Discussion = List Comment × Inbox uuid_text sha256_hex cache

  -- With a post that the user sees and the parent that was looked for; `id` is the key of the new row.
  unfoldable pub create_under :
      ℕ
      → ℕ
      → HiveUser
      → Post
      → Option (Option Comment)
      → Text
      → Discussion
      → CommentResponse × Discussion
  create_under now id actor post none content st = (not_found, st)
  create_under now id actor post (some parent) content (comments, inbox) =
      elim (clean_content content) [
        | err e ↦ (refused e, (comments, inbox))
        | ok cleaned ↦
            let comment = new_comment now id actor post parent cleaned in
            (
              redirected,
              (
                comment ∷ comments,
                create_each uuid_text sha256_hex cache new_id now 0
                    (notify_comment_created actor post comment parent) inbox,
              ),
            )
      ]

  unfoldable pub community_comment_create :
      ℕ → ℕ → HiveUser → ℕ → Option ℕ → Text → List Post → Discussion → CommentResponse × Discussion
  unfolding create_under
  community_comment_create now id actor post_id parent_id content posts (comments, inbox) =
      elim (visible_post actor.id post_id posts) [
        | none ↦ (not_found, (comments, inbox))
        | some p ↦
            create_under now id actor p (found_parent p.id parent_id comments) content
              (comments, inbox)
      ]

-- `parent_by_id.get(id)` on the rows of the post that are not deleted: the parent, if there is one.
unfoldable pub parent_of : ℕ → ℕ → List Comment → Option ℕ
parent_of post_id id [] = none
parent_of post_id id (c ∷ cs) =
    let rest = parent_of post_id id cs in
    if c.post_id == post_id && is_kept c.deleted_at && c.id == id then c.parent_comment_id else rest

-- The `while` of _get_comment_ancestor_ids; `none` means that the fuel ran out.
unfoldable pub ancestors_from : ℕ → ℕ → Option ℕ → List Comment → Option (List ℕ)
ancestors_from zero post_id current comments = none
ancestors_from (suc fuel) post_id none comments = some []
ancestors_from (suc fuel) post_id (some id) comments =
    elim (ancestors_from fuel post_id (parent_of post_id id comments) comments) [
      | none ↦ none
      | some ids ↦ some (id ∷ ids)
    ]

unfoldable pub get_comment_ancestor_ids : ℕ → Option ℕ → List Comment → Option (List ℕ)
unfolding ancestors_from
get_comment_ancestor_ids post_id comment_id comments =
    ancestors_from (suc (suc (length comments))) post_id comment_id comments

-- `comments_by_parent_id.setdefault(id, []).append(comment)`
abbrev pub append_child : ℕ → Comment → List (ℕ × List Comment) → List (ℕ × List Comment)
append_child id c [] = (id, c ∷ []) ∷ []
append_child id c ((k, cs) ∷ d) =
    if k == id then (k, cs ++ c ∷ []) ∷ d else (k, cs) ∷ append_child id c d

-- `comments_by_parent_id.get(id, [])`
abbrev pub children_in : ℕ → List (ℕ × List Comment) → List Comment
children_in id [] = []
children_in id ((k, cs) ∷ d) = if k == id then cs else children_in id d

abbrev pub sort_comment :
    Option ℕ
    → Comment
    → List Comment × List (ℕ × List Comment)
    → List Comment × List (ℕ × List Comment)
sort_comment none c (roots, d) = (roots ++ c ∷ [], d)
sort_comment (some id) c (roots, d) = (roots, append_child id c d)

-- The first loop: the comments without a parent, and the dict of the others.
unfoldable pub sorted_comments :
    List Comment → List Comment × List (ℕ × List Comment) → List Comment × List (ℕ × List Comment)
sorted_comments [] done = done
sorted_comments (c ∷ cs) done = sorted_comments cs (sort_comment c.parent_comment_id c done)

unfoldable pub with_children :
    List Comment → List (ℕ × List Comment) → List (Comment × List Comment)
with_children [] d = []
with_children (c ∷ cs) d = (c, children_in c.id d) ∷ with_children cs d

-- The roots, and each comment with its `child_comments`; `comments` is the result of the query.
unfoldable pub get_comment_tree : List Comment → List Comment × List (Comment × List Comment)
unfolding sorted_comments with_children
get_comment_tree comments =
    let (roots, d) = sorted_comments comments ([], []) in (roots, with_children comments d)

abbrev pub is_reply_to : ℕ → Comment → Bool
is_reply_to id c = same_user c.parent_comment_id (some id)

-- On the rows that are not deleted.
abbrev pub get_child_comments : ℕ → List Comment → List Comment
get_child_comments id = keep (λ c. is_reply_to id c && is_kept c.deleted_at)
