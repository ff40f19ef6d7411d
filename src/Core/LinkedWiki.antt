-- ===== src/Core/LinkedWiki.antt =====
-- The wiki pages of posts, in apps/core/views.py: _get_wiki_documents_for_post for one post and
-- _attach_linked_wiki_documents for a list of posts. `explicit_of` gives `post.wiki_documents.all()`,
-- `slugs_of` is extract_linked_wiki_slugs and `image_of` extract_first_image_url. Slugs are unique.
pub mod Batch
mod Tests
use hivewiki_web.Base.{
  ℕ, Bool, ◌&&◌, Option, none, some, List, [], ◌∷◌, ◌++◌, map, ◌==◌, if◌then◌else◌, keep,
  first_of_rows, any_of, is_some,
}
use hivewiki_web.Base.Text.{Text, text_eq, is_empty}
use hivewiki_web.Core.Models.{Post}
use hivewiki_web.Core.AdminContent.{WikiDocument, same_status, published}

-- `linked_documents` and `seen_document_ids`.
abbrev pub Linked : Type 0
Linked = List WikiDocument × List ℕ

abbrev pub add_document : Option WikiDocument → Linked → Linked
add_document none linked = linked
add_document (some d) (documents, seen) =
    if any_of (λ i. i == d.id) seen then (documents, seen) else (documents ++ d ∷ [], d.id ∷ seen)

unfoldable pub add_documents : List WikiDocument → Linked → Linked
add_documents [] linked = linked
add_documents (d ∷ ds) linked = add_documents ds (add_document (some d) linked)

abbrev pub is_servable : WikiDocument → Bool
is_servable d = same_status d.status published && is_some d.current_revision_id

-- `documents_by_slug`: the rows of the query for the slugs.
abbrev pub documents_of : List Text → List WikiDocument → List WikiDocument
documents_of slugs = keep (λ d. is_servable d && any_of (text_eq d.slug) slugs)

-- `documents_by_slug.get(slug)`
abbrev pub document_in : Text → List WikiDocument → Option WikiDocument
document_in slug = first_of_rows (λ d. text_eq d.slug slug)

-- The loop over the slugs.
unfoldable pub add_slugs : List WikiDocument → List Text → Linked → Linked
add_slugs by_slug [] linked = linked
add_slugs by_slug (s ∷ slugs) linked =
    add_slugs by_slug slugs (add_document (document_in s by_slug) linked)

abbrev pub ids_of : List WikiDocument → List ℕ
ids_of = map (λ d. d.id)

module _ (explicit_of : Post → List WikiDocument) (slugs_of : Text → List Text)
    (image_of : Text → Text) where
  unfoldable pub get_wiki_documents_for_post : List WikiDocument → Post → List WikiDocument
  unfolding add_documents add_slugs
  get_wiki_documents_for_post table post =
      let linked = add_documents (explicit_of post) ([], []) in
      let slugs = slugs_of post.content_markdown in
      if is_empty slugs then linked.0 else (add_slugs (documents_of slugs table) slugs linked).0

  -- `slugs`, over all posts.
  unfoldable pub all_slugs : List Post → List Text
  all_slugs [] = []
  all_slugs (p ∷ ps) = slugs_of p.content_markdown ++ all_slugs ps

  -- The posts with `linked_wiki_documents` and `thumbnail_url`.
  unfoldable pub attach_each :
      List WikiDocument → List Post → List (Post × List WikiDocument × Text)
  attach_each by_slug [] = []
  attach_each by_slug (p ∷ ps) =
      (
        p,
        (add_slugs by_slug (slugs_of p.content_markdown) (explicit_of p, ids_of (explicit_of p))).0,
        image_of p.content_markdown,
      )
      ∷ attach_each by_slug ps

  unfoldable pub attach_linked_wiki_documents :
      List WikiDocument → List Post → List (Post × List WikiDocument × Text)
  unfolding attach_each all_slugs
  attach_linked_wiki_documents table posts =
      let slugs = all_slugs posts in
      if is_empty slugs
      then map (λ p. (p, explicit_of p, image_of p.content_markdown)) posts
      else attach_each (documents_of slugs table) posts
