-- ===== src/Core/AdminContent/Tests.antt =====
-- Actions on one post and one wiki page.
use Prim.{tt}
use hivewiki_web.Base.{ℕ, ◌≡◌, refl, none, some, [], ◌∷◌, All}
use hivewiki_web.Base.Text.{Text, codes, text_eq, strip}
use hivewiki_web.Core.Models.{Post, published}
use hivewiki_web.Accounts.Models.{HiveUser, admin, active}
use hivewiki_web.Core.AdminContent.{
  WikiDocument, WikiDocumentStatus, apply_admin_wiki_action, is_wiki_action, admin_wiki_action,
}
use hivewiki_web.Core.AdminContent.Effects.{IsServable, admin_wiki_action-IsServable}

abbrev id_text : ℕ → Text
id_text n = n ∷ []

abbrev entry : Post
entry = record {
  id = 9;
  author_user_id = some 7;
  content_markdown = codes "x";
  title_cache = [];
  body_markdown_cache = [];
  summary_cache = [];
  status = published;
  created_at = 0;
  updated_at = 0;
  deleted_at = none;
}

abbrev page : WikiDocument
page = record {
  id = 4;
  title = codes "t";
  slug = codes "t";
  summary = [];
  current_revision_id = some 2;
  status = WikiDocumentStatus.deleted;
  created_at = 0;
  updated_at = 0;
}

abbrev boss : HiveUser
boss = record {
  id = 3;
  username = codes "k";
  email = codes "k@a";
  role = admin;
  password_hash = none;
  status = active;
  profile_image = none;
  created_at = 0;
  updated_at = 0;
}

admin_wiki_action-IsServable_example :
    All IsServable ((admin_wiki_action 5 (some boss) 4 (codes "publish") (page ∷ [])).1)
admin_wiki_action-IsServable_example =
    admin_wiki_action-IsServable 5 (some boss) 4 (codes "publish") (page ∷ []) (λ shown. refl, tt)

-- A deleted page can be published again.
published_again :
    (admin_wiki_action 5 (some boss) 4 (codes "publish") (page ∷ [])).1
    ≡ record page { status = WikiDocumentStatus.published; updated_at = 5 } ∷ []
unfolding admin_wiki_action apply_admin_wiki_action is_wiki_action strip text_eq
published_again = refl
