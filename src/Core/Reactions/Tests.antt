-- ===== src/Core/Reactions/Tests.antt =====
-- Toggles of likes and bookmarks at small tables.
use hivewiki_web.Base.{ℕ, ◌≡◌, refl, false, none, some, List, [], ◌∷◌, is_some}
use hivewiki_web.Base.Text.{Text, codes, text_eq}
use hivewiki_web.Django.Cache.{Cache, table_cache}
use hivewiki_web.Accounts.Models.{HiveUser, user, active}
use hivewiki_web.Accounts.Notifications.{Inbox}
use hivewiki_web.Core.Models.{Post, Comment, PostStatus, published, draft}
use hivewiki_web.Core.Reactions.{
  Mark, is_visible_to, visible_post, toggle_mark, not_found, bookmarked,
  community_post_bookmark_toggle, community_post_like_toggle,
}
use hivewiki_web.Core.Reactions.Toggles.{IsToggle, community_post_like_toggle_lem}

abbrev counts : Cache Text ℕ text_eq
counts = table_cache text_eq

abbrev one_letter : ℕ → Text
one_letter n = n ∷ []

abbrev as_is : Text → Text
as_is t = t

abbrev drawn : ℕ → ℕ
drawn n = n

abbrev reader : HiveUser
reader = record {
  id = 3;
  username = codes "k";
  email = codes "k@a";
  role = user;
  password_hash = none;
  status = active;
  profile_image = none;
  created_at = 0;
  updated_at = 0;
}

abbrev post_with : PostStatus → Post
post_with status = record {
  id = 9;
  author_user_id = some 7;
  content_markdown = codes "x";
  title_cache = [];
  body_markdown_cache = [];
  summary_cache = [];
  status = status;
  created_at = 0;
  updated_at = 0;
  deleted_at = none;
}

abbrev reply : Comment
reply = record {
  id = 11;
  post_id = 9;
  author_user_id = some 7;
  parent_comment_id = none;
  content = codes "hi";
  created_at = 0;
  updated_at = 0;
  deleted_at = none;
}

abbrev liked : List Mark
liked = record { target_id = 9; user_id = 3; created_at = 0 } ∷ []

abbrev quiet : Inbox one_letter as_is counts
quiet = (λ k. none, [])

community_post_like_toggle_lem_example :
    IsToggle (is_some (visible_post 3 9 (post_with published ∷ []))) 9 3 [] (
      (community_post_like_toggle one_letter as_is counts drawn 5 reader 9
        (post_with published ∷ [])
        ([], quiet)).1.0)
community_post_like_toggle_lem_example =
    community_post_like_toggle_lem one_letter as_is counts drawn 5 reader 9
      (post_with published ∷ []) [] quiet

bookmark_run :
    community_post_bookmark_toggle 5 reader 9 (post_with published ∷ []) liked
    ≡ (bookmarked false, [])
unfolding community_post_bookmark_toggle is_visible_to toggle_mark
bookmark_run = refl

-- A draft of another user is not found.
draft_run :
    community_post_bookmark_toggle 5 reader 9 (post_with draft ∷ []) liked ≡ (not_found, liked)
unfolding community_post_bookmark_toggle is_visible_to
draft_run = refl
