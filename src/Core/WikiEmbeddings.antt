-- ===== src/Core/WikiEmbeddings.antt =====
-- apps/core/wiki_embeddings.py: the embedding of a wiki page, which follows the current revision. The
-- floating-point numbers are a parameter: `Number` with 0.0, `+`, `*`, `<=`, `/`, `math.sqrt`, the number of
-- a count and `float` of a text. `embed` is the request to OpenAI, `none` where it fails, and
-- `sha256_hex` is `hashlib.sha256(…).hexdigest()`.
pub mod Sync
pub mod Centroid
mod Tests
use hivewiki_web.Base.{
  ℕ, zero, suc, ◌+◌, Bool, true, false, not, ◌&&◌, ◌||◌, Option, none, some, List, [], ◌∷◌, ◌++◌,
  map, ◌==◌, if◌then◌else◌, length, first_of_rows, keep, any_of, update_of, replicate,
}
use hivewiki_web.Base.Text.{Text, codes, text_eq, is_empty, strip}
use hivewiki_web.Core.AdminContent.{WikiDocument}
use hivewiki_web.Core.Forms.{split_on}
use hivewiki_web.Core.WikiMarkdown.{strip_leading_title_heading}

pub record WikiRevision : Type 0 where
  pub id : ℕ
  pub wiki_document_id : ℕ
  pub content_markdown : Text

-- A row of WikiRevisionSource.
pub record RevisionSource : Type 0 where
  pub wiki_revision_id : ℕ
  pub source_chunk_id : Option ℕ

pub data Provider : Type 0 where
  openai source_chunk_centroid : Provider

module _ (Number : Type 0) where
  -- What a column of vectors gives: nothing, a list, a text, or a value of another kind.
  pub data VectorValue : Type 0 where
    no_value other_value : VectorValue
    numbers : List Number → VectorValue
    text : Text → VectorValue

  pub record ChunkEmbedding : Type 0 where
    pub source_chunk_id : ℕ
    pub embedding_model : Text
    pub embedding : VectorValue

  pub record WikiDocumentEmbedding : Type 0 where
    pub wiki_document_id : ℕ
    pub wiki_revision_id : ℕ
    pub embedding_model : Text
    pub embedding_dim : ℕ
    pub embedding : List Number
    pub content_hash : Text
    pub provider : Provider
    pub created_at : ℕ
    pub updated_at : ℕ

  module _ (float : Text → Number) where
    abbrev pub is_first : ℕ → Text → Bool
    is_first d [] = false
    is_first d (c ∷ s) = c == d

    abbrev pub is_last : ℕ → Text → Bool
    is_last d [] = false
    is_last d (c ∷ []) = c == d
    is_last d (c ∷ e ∷ s) = is_last d (e ∷ s)

    abbrev pub without_last : Text → Text
    without_last [] = []
    without_last (c ∷ []) = []
    without_last (c ∷ e ∷ s) = c ∷ without_last (e ∷ s)

    abbrev pub without_first : Text → Text
    without_first [] = []
    without_first (c ∷ s) = s

    -- `stripped[1:-1]` where the text is in brackets.
    abbrev pub unbracketed : Text → Text
    unbracketed s = if is_first b'[' s && is_last b']' s then without_last (without_first s) else s

    -- The texts in the column are numbers, so `float` does not raise.
    unfoldable pub parse_embedding_vector : VectorValue → Option (List Number)
    parse_embedding_vector no_value = none
    parse_embedding_vector other_value = none
    parse_embedding_vector (numbers xs) = some xs
    parse_embedding_vector (text t) =
        let stripped = unbracketed (strip t) in
        if is_empty stripped
        then none
        else some (
            map (λ item. float (strip item))
              (keep (λ item. not (is_empty (strip item))) (split_on b',' stripped)))

    abbrev pub parsed_chunk : Option ChunkEmbedding → Option (List Number)
    parsed_chunk none = none
    parsed_chunk (some e) = parse_embedding_vector e.embedding

    -- The vector of the first embedding of a chunk by the model.
    abbrev pub chunk_vector : Text → List ChunkEmbedding → ℕ → Option (List Number)
    chunk_vector model chunks id =
        parsed_chunk
          (first_of_rows (λ e. e.source_chunk_id == id && text_eq e.embedding_model model) chunks)

    abbrev pub add_vector : Option (List Number) → List (List Number) → List (List Number)
    add_vector none vectors = vectors
    add_vector (some v) vectors = v ∷ vectors

    -- The loop over the sources of the revision, with the set `seen_chunk_ids`.
    unfoldable pub source_vectors :
        Text → List ChunkEmbedding → List ℕ → List (Option ℕ) → List (List Number)
    source_vectors model chunks seen [] = []
    source_vectors model chunks seen (none ∷ sources) = source_vectors model chunks seen sources
    source_vectors model chunks seen (some id ∷ sources) =
        let is_seen = any_of (λ i. i == id) seen in
        let rest = source_vectors model chunks (if is_seen then seen else id ∷ seen) sources in
        if is_seen then rest else add_vector (chunk_vector model chunks id) rest

    module _ (zero_number : Number) (add : Number → Number → Number)
        (divide : Number → ℕ → Number) where
      abbrev pub add_each : List Number → List Number → List Number
      add_each (x ∷ xs) (y ∷ ys) = add x y ∷ add_each xs ys
      add_each xs _ = xs

      -- The sum of the vectors of the dimension, and their number.
      unfoldable pub sum_onto : ℕ → List Number → ℕ → List (List Number) → List Number × ℕ
      sum_onto dimension centroid count [] = (centroid, count)
      sum_onto dimension centroid count (v ∷ vs) =
          let valid = length v == dimension in
          sum_onto dimension (if valid then add_each centroid v else centroid)
            (if valid then count + 1 else count) vs

      unfoldable pub centroid_of : List (List Number) → Option (List Number)
      unfolding sum_onto
      centroid_of [] = none
      centroid_of (v ∷ vs) =
          let (sums, count) = sum_onto (length v) (replicate (length v) zero_number) 0 (v ∷ vs) in
          if count == 0 then none else some (map (λ x. divide x count) sums)

      -- `sources` are the chunks of the sources of the revision, in the order of the rows.
      unfoldable pub get_source_chunk_embedding_centroid :
          Text
          → Option WikiRevision
          → List RevisionSource
          → List ChunkEmbedding
          → Option (List Number)
      unfolding source_vectors centroid_of
      get_source_chunk_embedding_centroid model none sources chunks = none
      get_source_chunk_embedding_centroid model (some r) sources chunks = centroid_of (
          source_vectors model chunks []
            (map (λ s. s.source_chunk_id) (keep (λ s. s.wiki_revision_id == r.id) sources)))

-- `"\n\n".join(part for part in … if part)`
abbrev pub join_part : Text → Text → Text
join_part [] rest = rest
join_part (c ∷ part) [] = c ∷ part
join_part (c ∷ part) (d ∷ rest) = (c ∷ part) ++ codes "\n\n" ++ d ∷ rest

unfoldable pub build_wiki_embedding_input : WikiDocument → Option WikiRevision → Text
build_wiki_embedding_input document none = []
build_wiki_embedding_input document (some revision) =
    let body = strip (strip_leading_title_heading revision.content_markdown document.title) in
    join_part (strip document.title) (join_part (strip document.summary) (join_part body []))
