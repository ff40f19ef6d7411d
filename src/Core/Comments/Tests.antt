-- ===== src/Core/Comments/Tests.antt =====
-- Comments on one post.
use Prim.{tt}
use hivewiki_web.Base.{ℕ, ◌≡◌, refl, none, some, List, [], ◌∷◌}
use hivewiki_web.Base.Text.{Text, codes, text_eq, strip, lstrip, rstrip, is_space}
use hivewiki_web.Django.Cache.{Cache, table_cache}
use hivewiki_web.Core.Models.{Post, Comment, published}
use hivewiki_web.Core.Forms.{content_required, clean_content}
use hivewiki_web.Core.Reactions.{is_visible_to}
use hivewiki_web.Core.Comments.{
  refused, new_comment, community_comment_create, create_under, get_comment_ancestor_ids,
}
use hivewiki_web.Core.Comments.Threads.{IsThreaded, community_comment_create-IsThreaded}
use hivewiki_web.Core.Comments.Ancestors.{IsClosed, get_comment_ancestor_ids_total}
use hivewiki_web.Accounts.Models.{HiveUser, user, active}
use hivewiki_web.Accounts.Notifications.{Inbox}

abbrev counts : Cache Text ℕ text_eq
counts = table_cache text_eq

abbrev one_letter : ℕ → Text
one_letter n = n ∷ []

abbrev as_is : Text → Text
as_is t = t

abbrev same_id : ℕ → ℕ
same_id n = n

abbrev writer : HiveUser
writer = record {
  id = 3;
  username = codes "k";
  email = codes "k@a";
  role = user;
  password_hash = none;
  status = active;
  profile_image = none;
  created_at = 0;
  updated_at = 0;
}

abbrev article : Post
article = record {
  id = 9;
  author_user_id = some 7;
  content_markdown = codes "x";
  title_cache = [];
  body_markdown_cache = [];
  summary_cache = [];
  status = published;
  created_at = 0;
  updated_at = 0;
  deleted_at = none;
}

abbrev first : Comment
first = new_comment 1 11 writer article none (codes "a")

abbrev answer : Comment
answer = new_comment 2 12 writer article (some first) (codes "b")

abbrev thread : List Comment
thread = answer ∷ first ∷ []

thread-IsThreaded : IsThreaded thread
thread-IsThreaded = (refl, refl, (refl, tt, tt))

abbrev nothing : Inbox one_letter as_is counts
nothing = (λ k. none, [])

community_comment_create-IsThreaded_example :
    IsThreaded
      (community_comment_create one_letter as_is counts same_id 5 13 writer 9
        (some 12)
        (codes "c")
        (article ∷ [])
        (thread, nothing)).1.0
community_comment_create-IsThreaded_example =
    community_comment_create-IsThreaded one_letter as_is counts same_id 5 13 writer 9 (some 12)
      (codes "c") (article ∷ []) thread nothing refl thread-IsThreaded

get_comment_ancestor_ids_total_example :
    (ids : List ℕ) × (get_comment_ancestor_ids 9 (some 12) thread ≡ some ids)
    × IsClosed 9 thread (some 12) ids
get_comment_ancestor_ids_total_example =
    get_comment_ancestor_ids_total 9 12 thread thread-IsThreaded

-- A blank comment is refused.
blank_run :
    (community_comment_create one_letter as_is counts same_id 5 13 writer 9 none
      (codes " ")
      (article ∷ [])
      (thread, nothing)).0
    ≡ refused content_required
unfolding community_comment_create is_visible_to create_under clean_content strip lstrip rstrip
    is_space
blank_run = refl
