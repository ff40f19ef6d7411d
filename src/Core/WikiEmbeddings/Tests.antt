-- ===== src/Core/WikiEmbeddings/Tests.antt =====
-- Embeddings whose numbers are natural numbers; a text counts its characters.
use hivewiki_web.Base.{
  ℕ, ◌+◌, ◌/◌, ◌≡◌, refl, Option, some, List, [], ◌∷◌, map, keep, ◌==◌, length, replicate,
}
use hivewiki_web.Base.Text.{Text, codes, text_eq, strip}
use hivewiki_web.Core.AdminContent.{WikiDocument, published}
use hivewiki_web.Core.WikiMarkdown.{strip_leading_title_heading}
use hivewiki_web.Core.WikiEmbeddings.{
  WikiRevision, RevisionSource, ChunkEmbedding, numbers, openai, WikiDocumentEmbedding,
  parse_embedding_vector, source_vectors, sum_onto, centroid_of,
  get_source_chunk_embedding_centroid, build_wiki_embedding_input,
}
use hivewiki_web.Core.WikiEmbeddings.Centroid.{
  first_chunks, vectors_of, get_source_chunk_embedding_centroid_lem,
}
use hivewiki_web.Core.WikiEmbeddings.Sync.{
  EmbeddingSettings, revision_of, build_wiki_embedding_content_hash, generate_wiki_embedding_vector,
  update_or_create, store_vector, new_embedding, sync_current, sync_wiki_document_embedding,
}
use hivewiki_web.Core.WikiEmbeddings.Sync.Stored.{IsCurrent}
use hivewiki_web.Core.WikiEmbeddings.Sync.Current.{HasVector, sync_wiki_document_embedding_twice}

abbrev settings : EmbeddingSettings
settings = record {
  wiki_embedding_model = codes "m";
  wiki_embedding_dim = 1536;
  openai_api_key = codes "k";
}

abbrev as_is : Text → Text
as_is t = t

abbrev plus : ℕ → ℕ → ℕ
plus a b = a + b

abbrev over : ℕ → ℕ → ℕ
over a b = a / b

abbrev zeros : Text → Text → ℕ → Option (List ℕ)
zeros input model dimension = some (replicate dimension 0)

abbrev document : WikiDocument
document = record {
  id = 4;
  title = codes "t";
  slug = codes "t";
  summary = codes "s";
  current_revision_id = some 6;
  status = published;
  created_at = 0;
  updated_at = 0;
}

abbrev revision : WikiRevision
revision = record { id = 6; wiki_document_id = 4; content_markdown = [] }

abbrev stored : WikiDocumentEmbedding ℕ
stored =
    new_embedding ℕ length 0 plus over as_is zeros settings 5 4 6 (codes "t\n\ns")
      (replicate 1536 0) openai

sync_wiki_document_embedding_twice_example :
    IsCurrent ℕ length 0 plus over as_is zeros settings document.id 6
      (build_wiki_embedding_content_hash ℕ length 0 plus over as_is zeros settings document
        (revision_of document (revision ∷ [])))
      []
      stored
      (stored ∷ [])
    × HasVector ℕ length 0 plus over as_is zeros settings document 6
        (revision_of document (revision ∷ []))
        []
        []
        []
        stored
        (stored ∷ [])
    × ((later : ℕ) (other_sources : List RevisionSource) (other_chunks : List (ChunkEmbedding ℕ))
        → sync_wiki_document_embedding ℕ length 0 plus over as_is zeros settings later document
            (revision ∷ [])
            other_sources
            other_chunks
            (stored ∷ [])
          ≡ (some stored, stored ∷ []))
unfolding sync_wiki_document_embedding sync_current build_wiki_embedding_content_hash
    build_wiki_embedding_input generate_wiki_embedding_vector store_vector update_or_create strip
    strip_leading_title_heading
sync_wiki_document_embedding_twice_example =
    sync_wiki_document_embedding_twice ℕ length 0 plus over as_is zeros settings 5 6 document
      (revision ∷ []) [] [] [] (stored ∷ []) stored refl refl

abbrev chunk : ChunkEmbedding ℕ
chunk = record {
  source_chunk_id = 2;
  embedding_model = codes "m";
  embedding = numbers (3 ∷ 4 ∷ []);
}

abbrev source : RevisionSource
source = record { wiki_revision_id = 6; source_chunk_id = some 2 }

get_source_chunk_embedding_centroid_lem_example :
    let ids =
      first_chunks [] (
        map
          (λ s. s.source_chunk_id)
          (keep (λ s. s.wiki_revision_id == 6) (source ∷ source ∷ []))) in
    (get_source_chunk_embedding_centroid ℕ length 0 plus over
        (codes "m")
        (some revision)
        (source ∷ source ∷ [])
        (chunk ∷ [])
      ≡ centroid_of ℕ length 0 plus over (vectors_of length (codes "m") (chunk ∷ []) ids))
    × ((v : List ℕ) (vs : List (List ℕ))
        → vectors_of length (codes "m") (chunk ∷ []) ids ≡ v ∷ vs
        → (c : List ℕ) × (get_source_chunk_embedding_centroid ℕ length 0 plus over
              (codes "m")
              (some revision)
              (source ∷ source ∷ [])
              (chunk ∷ [])
            ≡ some c)
          × (length c ≡ length v))
get_source_chunk_embedding_centroid_lem_example =
    get_source_chunk_embedding_centroid_lem ℕ length 0 plus over (codes "m") revision
      (source ∷ source ∷ []) (chunk ∷ [])

centroid_run :
    get_source_chunk_embedding_centroid ℕ length 0 plus over
      (codes "m")
      (some revision)
      (source ∷ source ∷ [])
      (chunk ∷ [])
    ≡ some (3 ∷ 4 ∷ [])
unfolding get_source_chunk_embedding_centroid source_vectors centroid_of sum_onto
    parse_embedding_vector text_eq
centroid_run = refl
