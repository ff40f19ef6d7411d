-- ===== src/Core/WikiEmbeddings/Sync.antt =====
-- sync_wiki_document_embedding of apps/core/wiki_embeddings.py. `embed` is the request to OpenAI, `none` where it fails.
pub mod Stored
pub mod Current
use hivewiki_web.Base.{
  ℕ, Bool, true, false, not, ◌&&◌, ◌||◌, Option, none, some, List, [], ◌∷◌, ◌==◌, if◌then◌else◌,
  length, first_of_rows, any_of, update_of,
}
use hivewiki_web.Base.Text.{Text, codes, text_eq, is_empty}
use hivewiki_web.Core.AdminContent.{WikiDocument}
use hivewiki_web.Core.WikiEmbeddings.{
  WikiRevision, RevisionSource, Provider, openai, source_chunk_centroid, ChunkEmbedding,
  WikiDocumentEmbedding, get_source_chunk_embedding_centroid, build_wiki_embedding_input,
}

-- WIKI_EMBEDDING_MODEL, WIKI_EMBEDDING_DIM and OPENAI_API_KEY of the settings.
pub record EmbeddingSettings : Type 0 where
  pub wiki_embedding_model : Text
  pub wiki_embedding_dim : ℕ
  pub openai_api_key : Text

abbrev pub revision_of : WikiDocument → List WikiRevision → Option WikiRevision
revision_of document revisions =
    first_of_rows (λ r. elim document.current_revision_id [ none ↦ false | some id ↦ r.id == id ])
      revisions

module _ (Number : Type 0) (float : Text → Number) (zero_number : Number)
    (add : Number → Number → Number) (divide : Number → ℕ → Number) (sha256_hex : Text → Text)
    (embed : Text → Text → ℕ → Option (List Number)) (settings : EmbeddingSettings) where
  abbrev pub Rows : Type 0
  Rows = List (WikiDocumentEmbedding Number)

  -- The unique key of the table.
  abbrev pub is_embedding_of : ℕ → WikiDocumentEmbedding Number → Bool
  is_embedding_of document_id e =
      e.wiki_document_id == document_id && text_eq e.embedding_model settings.wiki_embedding_model

  unfoldable pub build_wiki_embedding_content_hash : WikiDocument → Option WikiRevision → Text
  build_wiki_embedding_content_hash document revision =
      sha256_hex (build_wiki_embedding_input document revision)

  unfoldable pub generate_wiki_embedding_vector :
      WikiDocument → Option WikiRevision → Option (List Number)
  generate_wiki_embedding_vector document revision =
      let input = build_wiki_embedding_input document revision in
      if is_empty settings.openai_api_key || is_empty input
      then none
      else embed input settings.wiki_embedding_model settings.wiki_embedding_dim

  -- The vector and where it is from.
  abbrev pub vector_or_centroid :
      Option (List Number) → Option (List Number) → Option (List Number × Provider)
  vector_or_centroid (some v) centroid = some (v, openai)
  vector_or_centroid none (some v) = some (v, source_chunk_centroid)
  vector_or_centroid none none = none

  abbrev pub filled :
      ℕ
      → ℕ
      → Text
      → List Number
      → Provider
      → WikiDocumentEmbedding Number
      → WikiDocumentEmbedding Number
  filled now revision_id hash v provider e = record e {
    wiki_revision_id = revision_id;
    embedding_dim = length v;
    embedding = v;
    content_hash = hash;
    provider = provider;
    updated_at = now;
  }

  abbrev pub new_embedding :
      ℕ → ℕ → ℕ → Text → List Number → Provider → WikiDocumentEmbedding Number
  new_embedding now document_id revision_id hash v provider = record {
    wiki_document_id = document_id;
    wiki_revision_id = revision_id;
    embedding_model = settings.wiki_embedding_model;
    embedding_dim = length v;
    embedding = v;
    content_hash = hash;
    provider = provider;
    created_at = now;
    updated_at = now;
  }

  -- `WikiDocumentEmbedding.objects.update_or_create(…)`
  unfoldable pub update_or_create :
      ℕ
      → ℕ
      → ℕ
      → Text
      → List Number
      → Provider
      → Option (WikiDocumentEmbedding Number)
      → Rows
      → WikiDocumentEmbedding Number × Rows
  update_or_create now document_id revision_id hash v provider none rows =
      let e = new_embedding now document_id revision_id hash v provider in (e, e ∷ rows)
  update_or_create now document_id revision_id hash v provider (some e) rows = (
    filled now revision_id hash v provider e,
    update_of (is_embedding_of document_id) (filled now revision_id hash v provider) rows,
  )

  abbrev pub is_up_to_date : ℕ → Text → Option (WikiDocumentEmbedding Number) → Bool
  is_up_to_date revision_id hash none = false
  is_up_to_date revision_id hash (some e) =
      e.wiki_revision_id == revision_id && text_eq e.content_hash hash

  unfoldable pub store_vector :
      ℕ
      → ℕ
      → ℕ
      → Text
      → Option (List Number × Provider)
      → Option (WikiDocumentEmbedding Number)
      → Rows
      → Option (WikiDocumentEmbedding Number) × Rows
  store_vector now document_id revision_id hash none existing rows = (none, rows)
  store_vector now document_id revision_id hash (some (v, provider)) existing rows =
      let (e, rows') = update_or_create now document_id revision_id hash v provider existing rows in
      if not (settings.wiki_embedding_dim == 1536) || not (length v == settings.wiki_embedding_dim)
      then (none, rows)
      else (some e, rows')

  -- With the id of the current revision.
  unfoldable pub sync_current :
      ℕ
      → WikiDocument
      → ℕ
      → Option WikiRevision
      → List RevisionSource
      → List (ChunkEmbedding Number)
      → Rows
      → Option (WikiDocumentEmbedding Number) × Rows
  unfolding store_vector
  sync_current now document revision_id revision sources chunks rows =
      let hash = build_wiki_embedding_content_hash document revision in
      let existing = first_of_rows (is_embedding_of document.id) rows in
      let vector = vector_or_centroid (generate_wiki_embedding_vector document revision) (
        get_source_chunk_embedding_centroid Number float zero_number add divide
          settings.wiki_embedding_model revision sources chunks) in
      if is_up_to_date revision_id hash existing
      then (existing, rows)
      else store_vector now document.id revision_id hash vector existing rows

  unfoldable pub sync_wiki_document_embedding :
      ℕ
      → WikiDocument
      → List WikiRevision
      → List RevisionSource
      → List (ChunkEmbedding Number)
      → Rows
      → Option (WikiDocumentEmbedding Number) × Rows
  unfolding sync_current
  sync_wiki_document_embedding now document revisions sources chunks rows =
      elim document.current_revision_id [
        | none ↦ (none, rows)
        | some id ↦
            sync_current now document id (revision_of document revisions) sources chunks rows
      ]
