-- ===== src/Core/AdminContent.antt =====
-- The admin's actions on posts and wiki pages in apps/core/views.py: admin_post_action with
-- _apply_admin_post_action, and admin_wiki_action with _apply_admin_wiki_action. `uuid_text` is `str`
-- of a UUID.
pub mod Effects
mod Tests
use hivewiki_web.Base.{
  ℕ, Bool, true, false, not, ◌||◌, Option, none, some, List, ◌==◌, if◌then◌else◌, first_of_rows,
  update_of, is_some, ◌++◌, Result, ok, err, raise_if, ◌>>=◌, ◌>>◌,
}
use hivewiki_web.Base.Text.{Text, codes, text_eq, strip}
use hivewiki_web.Core.CommunityContent.{or_text}
use hivewiki_web.Core.Models.{Post, post_title, post_summary}
use hivewiki_web.Accounts.Models.{HiveUser, is_admin}

pub data WikiDocumentStatus : Type 0 where
  published archived deleted : WikiDocumentStatus

pub record WikiDocument : Type 0 where
  pub id : ℕ
  pub title : Text
  pub slug : Text
  pub summary : Text
  pub current_revision_id : Option ℕ
  pub status : WikiDocumentStatus
  pub created_at : ℕ
  pub updated_at : ℕ

abbrev pub same_status : WikiDocumentStatus → WikiDocumentStatus → Bool
same_status published published = true
same_status archived archived = true
same_status deleted deleted = true
same_status _ _ = false

pub data ContentError : Type 0 where
  unsupported_action already_deleted not_deleted already_published no_revision already_archived :
      ContentError

-- `str(post.pk)` where a post has neither a title nor a summary.
unfoldable pub post_label : (ℕ → Text) → Post → Text
post_label uuid_text p = or_text (or_text (post_title p) (post_summary p)) (uuid_text p.id)

-- The message and the row that is saved.
unfoldable pub apply_admin_post_action :
    (ℕ → Text) → ℕ → Text → Post → Result ContentError (Text × Post)
apply_admin_post_action uuid_text now action p =
    if text_eq action (codes "delete")
    then (do
      raise_if (is_some p.deleted_at) already_deleted
      ok (
        codes "게시글 '" ++ post_label uuid_text p ++ codes "'을 삭제 처리했습니다.",
        record p { deleted_at = some now; updated_at = now },
      ))
    else (do
      raise_if (not (is_some p.deleted_at)) not_deleted
      ok (
        codes "게시글 '" ++ post_label uuid_text p ++ codes "'을 복구했습니다.",
        record p { deleted_at = none; updated_at = now },
      ))

unfoldable pub apply_admin_wiki_action :
    ℕ → Text → WikiDocument → Result ContentError (Text × WikiDocument)
apply_admin_wiki_action now action d =
    if text_eq action (codes "publish")
    then (do
      raise_if (same_status d.status published) already_published
      raise_if (not (is_some d.current_revision_id)) no_revision
      ok (
        codes "위키 '" ++ d.title ++ codes "'를 게시 상태로 전환했습니다.",
        record d { status = published; updated_at = now },
      ))
    else if text_eq action (codes "archive")
    then (do
      raise_if (same_status d.status archived) already_archived
      ok (
        codes "위키 '" ++ d.title ++ codes "'를 아카이브했습니다.",
        record d { status = archived; updated_at = now },
      ))
    else (do
      raise_if (same_status d.status deleted) already_deleted
      ok (
        codes "위키 '" ++ d.title ++ codes "'를 삭제 상태로 전환했습니다.",
        record d { status = deleted; updated_at = now },
      ))

pub data ContentResponse : Type 0 where
  redirect_login forbidden not_found : ContentResponse
  message_error : ContentError → ContentResponse
  message_success : Text → ContentResponse

-- A ValueError becomes a message and saves nothing; `put` saves the row.
abbrev pub respond :
    {A B : Type 0} → B → (A → B) → Result ContentError (Text × A) → ContentResponse × B
respond rows put (err e) = (message_error e, rows)
respond rows put (ok (message, a)) = (message_success message, put a)

unfoldable pub is_post_action : Text → Bool
is_post_action action = text_eq action (codes "delete") || text_eq action (codes "restore")

unfoldable pub is_wiki_action : Text → Bool
is_wiki_action action =
    text_eq action (codes "publish")
    || text_eq action (codes "archive")
    || text_eq action (codes "delete")

unfoldable pub admin_post_action :
    (ℕ → Text) → ℕ → Option HiveUser → ℕ → Text → List Post → ContentResponse × List Post
admin_post_action uuid_text now none post_id action posts = (redirect_login, posts)
admin_post_action uuid_text now (some current) post_id action posts =
    if not (is_admin current.role)
    then (forbidden, posts)
    else (elim (first_of_rows (λ p. p.id == post_id) posts) [
      | none ↦ (not_found, posts)
      | some p ↦
          if is_post_action (strip action)
          then respond posts (λ q. update_of (λ o. o.id == p.id) (λ o. q) posts)
              (apply_admin_post_action uuid_text now (strip action) p)
          else (message_error unsupported_action, posts)
    ])

unfoldable pub admin_wiki_action :
    ℕ → Option HiveUser → ℕ → Text → List WikiDocument → ContentResponse × List WikiDocument
admin_wiki_action now none wiki_id action docs = (redirect_login, docs)
admin_wiki_action now (some current) wiki_id action docs =
    if not (is_admin current.role)
    then (forbidden, docs)
    else (elim (first_of_rows (λ d. d.id == wiki_id) docs) [
      | none ↦ (not_found, docs)
      | some d ↦
          if is_wiki_action (strip action)
          then respond docs (λ e. update_of (λ o. o.id == d.id) (λ o. e) docs)
              (apply_admin_wiki_action now (strip action) d)
          else (message_error unsupported_action, docs)
    ])
