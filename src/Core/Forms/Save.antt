-- ===== src/Core/Forms/Save.antt =====
-- PostForm.save: a post with its tags and its wiki pages, in one transaction, so what raises writes nothing.
-- `set_links` is what `post.tags.set(tags)` and `post.wiki_documents.set(documents)` do with the rows
-- that link posts with tags or pages.
pub mod Links
pub mod Posts
use hivewiki_web.Base.{
  ℕ, suc, ◌+◌, ◌≡◌, Bool, ◌&&◌, Option, none, some, List, [], ◌∷◌, ◌==◌, if◌then◌else◌, update_of,
  any_of, Result, ok, err, raise_if, ◌>>=◌, ◌>>◌, ltb, length,
}
use hivewiki_web.Base.Text.{Text}
use hivewiki_web.Core.Models.{Post, PostStatus, Tag, sync_cached_content_fields}
use hivewiki_web.Core.Forms.{FormError, body_without_content, value_too_long}
use hivewiki_web.Core.Forms.Tags.{get_or_create_tag}

-- The dict `cleaned_data` of a valid form.
pub record PostData : Type 0 where
  pub body_markdown : Text
  pub tag_names : List Text
  pub wiki_documents : List ℕ
  pub status : PostStatus

-- The tables that the form writes: a link has the id of the post first.
pub record Tables : Type 0 where
  pub posts : List Post
  pub tags : List Tag
  pub post_tags : List (ℕ × ℕ)
  pub post_wiki_documents : List (ℕ × ℕ)

abbrev pub is_linked : ℕ → ℕ → List (ℕ × ℕ) → Bool
is_linked post_id id = any_of (λ l. l.0 == post_id && l.1 == id)

abbrev pub new_post : ℕ → ℕ → ℕ → Text → PostStatus → Post
new_post now id author content status = sync_cached_content_fields (record {
  id = id;
  author_user_id = some author;
  content_markdown = content;
  title_cache = [];
  body_markdown_cache = [];
  summary_cache = [];
  status = status;
  created_at = now;
  updated_at = now;
  deleted_at = none;
})

-- The columns that `post.save(update_fields=…)` writes.
abbrev pub edited_post : ℕ → ℕ → Text → PostStatus → Post → Post
edited_post now author content status post = sync_cached_content_fields (record post {
  author_user_id = some author;
  content_markdown = content;
  status = status;
  updated_at = now;
})

abbrev pub write_post : ℕ → ℕ → ℕ → Text → PostStatus → Option Post → List Post → Post × List Post
write_post now id author content status none posts =
    (new_post now id author content status, new_post now id author content status ∷ posts)
write_post now id author content status (some post) posts = (
  edited_post now author content status post,
  update_of (λ p. p.id == post.id) (edited_post now author content status) posts,
)

module _ (iexact : Text → Text → Bool) (slugify : Text → Text) (place : Tag → List Tag → List Tag)
    (meanwhile : ℕ → List Tag → List Tag) where
  -- The comprehension over the names; the keys of new rows count up from `id`.
  unfoldable pub tags_for : ℕ → ℕ → List Text → List Tag → Result FormError (List ℕ × List Tag)
  tags_for now id [] tags = ok ([], tags)
  tags_for now id (name ∷ names) tags = do
    (t, tags) ← get_or_create_tag iexact place slugify meanwhile now id name tags
    (ids, tags) ← tags_for now (suc id) names tags
    ok (t.id ∷ ids, tags)

  module _ (build_post_markdown : Text → Option Text)
      (set_links : ℕ → List ℕ → List (ℕ × ℕ) → List (ℕ × ℕ)) where
    -- A title of more than 255 characters does not fit its column.
    unfoldable pub save_content :
        ℕ → ℕ → ℕ → PostData → Option Post → Text → Tables → Result FormError (Post × Tables)
    unfolding tags_for
    save_content now id author cleaned instance_ content db = do
      let (post, posts) = write_post now id author content cleaned.status instance_ db.posts
      raise_if (ltb 255 (length post.title_cache)) value_too_long
      (ids, tags) ← tags_for now (suc id) cleaned.tag_names db.tags
      ok (
        post,
        record {
          posts = posts;
          tags = tags;
          post_tags = set_links post.id ids db.post_tags;
          post_wiki_documents = set_links post.id cleaned.wiki_documents db.post_wiki_documents;
        },
      )

    unfoldable pub save :
        ℕ → ℕ → ℕ → PostData → Option Post → Tables → Result FormError (Post × Tables)
    unfolding save_content
    save now id author cleaned instance_ db = elim (build_post_markdown cleaned.body_markdown) [
      | none ↦ err body_without_content
      | some content ↦ save_content now id author cleaned instance_ content db
    ]
