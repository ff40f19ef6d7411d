-- ===== src/Core/Models.antt =====
-- apps/core/models.py: the rows of tags, posts and comments. A UUID is the number that it stands for, and a
-- time is a number of microseconds.
use hivewiki_web.Base.{ℕ, Option}
use hivewiki_web.Base.Text.{Text, is_empty}
use hivewiki_web.Base.{if◌then◌else◌}
use hivewiki_web.Core.CommunityContent.{extract_post_render_parts}

pub data TagType : Type 0 where
  system user : TagType

pub record Tag : Type 0 where
  pub id : ℕ
  pub name : Text
  pub slug : Text
  pub tag_type : TagType
  pub created_at : ℕ

pub data PostStatus : Type 0 where
  published draft : PostStatus

pub record Post : Type 0 where
  pub id : ℕ
  pub author_user_id : Option ℕ
  pub content_markdown : Text
  pub title_cache : Text
  pub body_markdown_cache : Text
  pub summary_cache : Text
  pub status : PostStatus
  pub created_at : ℕ
  pub updated_at : ℕ
  pub deleted_at : Option ℕ

pub record Comment : Type 0 where
  pub id : ℕ
  pub post_id : ℕ
  pub author_user_id : Option ℕ
  pub parent_comment_id : Option ℕ
  pub content : Text
  pub created_at : ℕ
  pub updated_at : ℕ
  pub deleted_at : Option ℕ

-- `post.title` and `post.summary`: from the content, and from the cached columns where it is empty.
unfoldable pub post_title : Post → Text
post_title post =
    if is_empty post.content_markdown
    then post.title_cache
    else (extract_post_render_parts 180 post.content_markdown).0

unfoldable pub post_summary : Post → Text
post_summary post =
    if is_empty post.content_markdown
    then post.summary_cache
    else (extract_post_render_parts 180 post.content_markdown).2

-- `Post.save`: the cached columns are those of the content.
unfoldable pub sync_cached_content_fields : Post → Post
sync_cached_content_fields post =
    let (title, body, summary) = extract_post_render_parts 180 post.content_markdown in
    record post { title_cache = title; body_markdown_cache = body; summary_cache = summary }
