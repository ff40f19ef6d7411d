-- ===== src/Core/WikiEmbeddings/Sync/Current.antt =====
-- The stored embedding after a sync, and after another one.
use hivewiki_web.Base.{
  ℕ, ◌≡◌, ◌⊎◌, refl, length, false, sym, ap, ◌∙◌, true, Option, some, List, arith, Bool-cases, inl,
  inr,
}
use hivewiki_web.Base.Text.{Text, text_eq, text_eq_refl, eq_of_text_eq}
use hivewiki_web.Core.AdminContent.{WikiDocument}
use hivewiki_web.Core.WikiEmbeddings.{
  WikiRevision, RevisionSource, ChunkEmbedding, WikiDocumentEmbedding,
  get_source_chunk_embedding_centroid,
}
use hivewiki_web.Core.WikiEmbeddings.Sync.{
  EmbeddingSettings, revision_of, build_wiki_embedding_content_hash, generate_wiki_embedding_vector,
  vector_or_centroid, is_up_to_date, sync_current, sync_wiki_document_embedding,
}
use hivewiki_web.Core.WikiEmbeddings.Sync.Stored.{row_of, IsCurrent, store_vector-IsCurrent}

module _ (Number : Type 0) (float : Text → Number) (zero_number : Number)
    (add : Number → Number → Number) (divide : Number → ℕ → Number) (sha256_hex : Text → Text)
    (embed : Text → Text → ℕ → Option (List Number)) (settings : EmbeddingSettings) where
  up_to_date_parts :
      (revision_id : ℕ) (hash : Text) (e : WikiDocumentEmbedding Number)
      → is_up_to_date Number float zero_number add divide sha256_hex embed settings revision_id hash
          (some e)
        ≡ true
      → (e.wiki_revision_id ≡ revision_id) × (e.content_hash ≡ hash)
  up_to_date_parts revision_id hash e h =
      let same_hash : text_eq e.content_hash hash ≡ true = ground arith in
      (ground arith, eq_of_text_eq e.content_hash hash same_hash)

  up_to_date_of :
      (revision_id : ℕ) (hash : Text) (e : WikiDocumentEmbedding Number)
      → e.wiki_revision_id ≡ revision_id
      → e.content_hash ≡ hash
      → is_up_to_date Number float zero_number add divide sha256_hex embed settings revision_id hash
          (some e)
        ≡ true
  up_to_date_of revision_id hash e h k = rw (h, k, text_eq_refl hash) (ground arith)

  -- The row was up to date and nothing is written, or its vector, of 1536 numbers, and its provider
  -- are those for the text of the page or, if there are none, for the chunks of the sources.
  abbrev pub HasVector :
      WikiDocument
      → ℕ
      → Option WikiRevision
      → List RevisionSource
      → List (ChunkEmbedding Number)
      → List (WikiDocumentEmbedding Number)
      → WikiDocumentEmbedding Number
      → List (WikiDocumentEmbedding Number)
      → Type 0
  HasVector document revision_id revision sources chunks rows e rows' =
      let hash =
        build_wiki_embedding_content_hash Number float zero_number add divide sha256_hex embed
          settings document revision in
      let existing =
        row_of Number float zero_number add divide sha256_hex embed settings document.id rows in
      ((existing ≡ some e)
        × (is_up_to_date Number float zero_number add divide sha256_hex embed settings revision_id
              hash existing
            ≡ true)
        × (rows' ≡ rows))
      ⊎ ((is_up_to_date Number float zero_number add divide sha256_hex embed settings revision_id
              hash existing
            ≡ false)
          × (vector_or_centroid Number float zero_number add divide sha256_hex embed settings
                (generate_wiki_embedding_vector Number float zero_number add divide sha256_hex embed
                  settings document revision)
                (get_source_chunk_embedding_centroid Number float zero_number add divide
                  settings.wiki_embedding_model revision sources chunks)
              ≡ some (e.embedding, e.provider))
          × (length e.embedding ≡ 1536))

  sync_current-IsCurrent :
      (now : ℕ) (document : WikiDocument) (revision_id : ℕ) (revision : Option WikiRevision)
      (sources : List RevisionSource) (chunks : List (ChunkEmbedding Number))
      (rows rows' : List (WikiDocumentEmbedding Number)) (e : WikiDocumentEmbedding Number)
      → sync_current Number float zero_number add divide sha256_hex embed settings now document
          revision_id revision sources chunks rows
        ≡ (some e, rows')
      → IsCurrent Number float zero_number add divide sha256_hex embed settings document.id
          revision_id
          (build_wiki_embedding_content_hash Number float zero_number add divide sha256_hex embed
            settings document revision)
          rows
          e
          rows'
        × HasVector document revision_id revision sources chunks rows e rows'
  unfolding sync_current
  sync_current-IsCurrent now document revision_id revision sources chunks rows rows' e done =
      let hash =
        build_wiki_embedding_content_hash Number float zero_number add divide sha256_hex embed
          settings document revision in
      let existing =
        row_of Number float zero_number add divide sha256_hex embed settings document.id rows in
      elim (Bool-cases (
        is_up_to_date Number float zero_number add divide sha256_hex embed settings revision_id hash
          existing)) [
            | inl f ↦
                let both : ◌≡◌
                    {A = Option (WikiDocumentEmbedding Number)
                      × List (WikiDocumentEmbedding Number)}
                    (existing, rows) (some e, rows') =
                  rw (sync_current, f) at done in
                let row : existing ≡ some e = ap (λ r. r.0) both in
                let same_rows : rows ≡ rows' = ap (λ r. r.1) both in
                let up_to_date : is_up_to_date Number float zero_number add divide sha256_hex embed
                      settings revision_id hash (some e)
                    ≡ true =
                  ap
                    (is_up_to_date Number float zero_number add divide sha256_hex embed settings
                      revision_id hash)
                    (sym row)
                  ∙ f in
                let (revised, hashed) = up_to_date_parts revision_id hash e up_to_date in
                rw (← same_rows) ((row, revised, hashed, λ other apart. refl), inl (row, f, refl))
            | inr f ↦
                let (is_current, from, size) =
                  store_vector-IsCurrent Number float zero_number add divide sha256_hex embed
                    settings now document.id revision_id hash
                    (vector_or_centroid Number float zero_number add divide sha256_hex embed
                      settings
                      (generate_wiki_embedding_vector Number float zero_number add divide sha256_hex
                        embed settings document revision)
                      (get_source_chunk_embedding_centroid Number float zero_number add divide
                        settings.wiki_embedding_model revision sources chunks))
                    rows rows' e (let stored = rw (sync_current, f) at done in stored) in
                (is_current, inr (f, from, size))
          ]

  -- A sync that returns a row of a page with a current revision leaves this row in the table, for that
  -- revision and with the hash of the content; other pages keep their rows. Unless the row was up to date
  -- before, in which case nothing is written, its vector has 1536 numbers, and it and its provider are
  -- those that the text of the page gives or, if it gives none, the chunks of the sources. Any sync that
  -- follows returns the same row and writes nothing, even if the sources or the embeddings of their
  -- chunks have changed.
  pub sync_wiki_document_embedding_twice :
      (now revision_id : ℕ) (document : WikiDocument) (revisions : List WikiRevision)
      (sources : List RevisionSource) (chunks : List (ChunkEmbedding Number))
      (rows rows' : List (WikiDocumentEmbedding Number)) (e : WikiDocumentEmbedding Number)
      → document.current_revision_id ≡ some revision_id
      → sync_wiki_document_embedding Number float zero_number add divide sha256_hex embed settings
          now document revisions sources chunks rows
        ≡ (some e, rows')
      → IsCurrent Number float zero_number add divide sha256_hex embed settings document.id
          revision_id
          (build_wiki_embedding_content_hash Number float zero_number add divide sha256_hex embed
            settings document
            (revision_of document revisions))
          rows
          e
          rows'
        × HasVector document revision_id
            (revision_of document revisions)
            sources
            chunks
            rows
            e
            rows'
        × ((later : ℕ) (other_sources : List RevisionSource)
              (other_chunks : List (ChunkEmbedding Number))
            → sync_wiki_document_embedding Number float zero_number add divide sha256_hex embed
                settings later document revisions other_sources other_chunks rows'
              ≡ (some e, rows'))
  unfolding sync_wiki_document_embedding sync_current
  sync_wiki_document_embedding_twice now revision_id document revisions sources chunks rows rows' e
        current done =
      let first = rw (sync_wiki_document_embedding, current) at done in
      let ((row, revised, hashed, others), has_vector) =
        sync_current-IsCurrent now document revision_id (revision_of document revisions) sources
          chunks rows rows' e first in
      let up_to_date =
        up_to_date_of revision_id
          (build_wiki_embedding_content_hash Number float zero_number add divide sha256_hex embed
            settings document (revision_of document revisions))
          e revised hashed in
      (
        (row, revised, hashed, others),
        has_vector,
        λ later other_sources other_chunks.
            rw (sync_wiki_document_embedding, current, sync_current, row, up_to_date) refl,
      )
