-- ===== src/Core/LinkedWiki/Tests.antt =====
-- Two posts that link to one page.
use Prim.{tt}
use hivewiki_web.Base.{ℕ, ◌≡◌, refl, none, some, List, [], ◌∷◌, map}
use hivewiki_web.Base.Text.{Text, codes}
use hivewiki_web.Core.Models.{Post}
use hivewiki_web.Core.AdminContent.{WikiDocument}
use hivewiki_web.Core.LinkedWiki.{attach_linked_wiki_documents}
use hivewiki_web.Core.LinkedWiki.Batch.{one_by_one, attach_linked_wiki_documents-eq-one_by_one}

abbrev page : ℕ → Text → WikiDocument
page id slug = record {
  id = id;
  title = slug;
  slug = slug;
  summary = [];
  current_revision_id = some 6;
  status = hivewiki_web.Core.AdminContent.published;
  created_at = 0;
  updated_at = 0;
}

abbrev article : ℕ → Text → Post
article id content = record {
  id = id;
  author_user_id = some 7;
  content_markdown = content;
  title_cache = [];
  body_markdown_cache = [];
  summary_cache = [];
  status = hivewiki_web.Core.Models.published;
  created_at = 0;
  updated_at = 0;
  deleted_at = none;
}

-- Each post names the page of its own id, and its content is the slug that it links to.
abbrev named : Post → List WikiDocument
named p = page p.id (codes "n") ∷ []

abbrev linked : Text → List Text
linked content = content ∷ []

abbrev no_image : Text → Text
no_image content = []

abbrev articles : List Post
articles = article 1 (codes "a") ∷ article 2 (codes "a") ∷ []

attach_linked_wiki_documents-eq-one_by_one_example :
    attach_linked_wiki_documents named linked no_image (page 5 (codes "a") ∷ []) articles
    ≡ map (one_by_one named linked no_image (page 5 (codes "a") ∷ [])) articles
attach_linked_wiki_documents-eq-one_by_one_example =
    attach_linked_wiki_documents-eq-one_by_one named linked no_image (page 5 (codes "a") ∷ [])
      articles ((refl, tt), ((refl, tt), tt))
