-- ===== src/Core/WikiEmbeddings/Centroid.antt =====
-- The centroid of the chunks' vectors.
use hivewiki_web.Base.{
  ℕ, suc, ◌+◌, ◌≤◌, ◌≡◌, refl, ap, ◌∙◌, true, false, Option, none, some, List, [], ◌∷◌, map, ◌==◌,
  if◌then◌else◌, length, length-replicate, replicate, any_of, keep, arith, Bool-cases, inl, inr,
}
use hivewiki_web.Base.Text.{Text}
use hivewiki_web.Core.WikiEmbeddings.{
  WikiRevision, RevisionSource, get_source_chunk_embedding_centroid, ChunkEmbedding, add_vector,
  chunk_vector, source_vectors, add_each, sum_onto, centroid_of,
}

-- The chunks of the sources, each where it stands first.
unfoldable pub first_chunks : List ℕ → List (Option ℕ) → List ℕ
first_chunks seen [] = []
first_chunks seen (none ∷ sources) = first_chunks seen sources
first_chunks seen (some id ∷ sources) =
    let is_seen = any_of (λ i. i == id) seen in
    let rest = first_chunks (if is_seen then seen else id ∷ seen) sources in
    if is_seen then rest else id ∷ rest

-- The vectors of the chunks that have one.
unfoldable pub vectors_of :
    {Number : Type 0}
    → (Text → Number)
    → Text
    → List (ChunkEmbedding Number)
    → List ℕ
    → List (List Number)
vectors_of float model chunks [] = []
vectors_of {Number} float model chunks (id ∷ ids) =
    add_vector Number float (chunk_vector Number float model chunks id)
      (vectors_of float model chunks ids)

module _ (Number : Type 0) (float : Text → Number) (zero_number : Number)
    (add : Number → Number → Number) (divide : Number → ℕ → Number) where
  length-add_each :
      (xs ys : List Number)
      → length (add_each Number float zero_number add divide xs ys) ≡ length xs
  length-add_each [] ys = refl
  length-add_each (x ∷ xs) [] = refl
  length-add_each (x ∷ xs) (y ∷ ys) = ap suc (length-add_each xs ys)

  sum_onto-bounds :
      (dimension : ℕ) (centroid : List Number) (count : ℕ) (vs : List (List Number))
      → (length (sum_onto Number float zero_number add divide dimension centroid count vs).0
          ≡ length centroid)
        × (count ≤ (sum_onto Number float zero_number add divide dimension centroid count vs).1)
  unfolding sum_onto
  sum_onto-bounds dimension centroid count [] = (refl, omega arith)
  sum_onto-bounds dimension centroid count (v ∷ vs) = elim (Bool-cases (length v == dimension)) [
    | inl e ↦
        let (sized, counted) =
          sum_onto-bounds dimension (add_each Number float zero_number add divide centroid v)
            (count + 1) vs in
        rw (sum_onto, e) (sized ∙ length-add_each centroid v, omega arith)
    | inr e ↦ rw (sum_onto, e) (sum_onto-bounds dimension centroid count vs)
  ]

  source_vectors-eq :
      (model : Text) (chunks : List (ChunkEmbedding Number)) (seen : List ℕ)
      (sources : List (Option ℕ))
      → source_vectors Number float model chunks seen sources
        ≡ vectors_of float model chunks (first_chunks seen sources)
  unfolding source_vectors first_chunks vectors_of
  source_vectors-eq model chunks seen [] = refl
  source_vectors-eq model chunks seen (none ∷ sources) = source_vectors-eq model chunks seen sources
  source_vectors-eq model chunks seen (some id ∷ sources) =
      elim (Bool-cases (any_of (λ i. i == id) seen)) [
        | inl e ↦ rw (source_vectors, first_chunks, e) (source_vectors-eq model chunks seen sources)
        | inr e ↦
            rw (source_vectors, first_chunks, e)
              (ap (add_vector Number float (chunk_vector Number float model chunks id))
                (source_vectors-eq model chunks (id ∷ seen) sources))
      ]

  counted :
      (v : List Number) (vs : List (List Number)) (acc : List Number)
      → 1 ≤ (sum_onto Number float zero_number add divide (length v) acc 0 (v ∷ vs)).1
  unfolding sum_onto
  counted v vs acc =
      let itself : (length v == length v) ≡ true = ground arith in
      rw (sum_onto, itself)
        (sum_onto-bounds (length v) (add_each Number float zero_number add divide acc v) 1 vs).1

  length-map : (f : Number → Number) (xs : List Number) → length (map f xs) ≡ length xs
  length-map f [] = refl
  length-map f (x ∷ xs) = ap suc (length-map f xs)

  centroid_of-sized :
      (v : List Number) (vs : List (List Number))
      → (c : List Number) × (centroid_of Number float zero_number add divide (v ∷ vs) ≡ some c)
        × (length c ≡ length v)
  unfolding centroid_of
  centroid_of-sized v vs =
      let zeros = replicate (length v) zero_number in
      let total = sum_onto Number float zero_number add divide (length v) zeros 0 (v ∷ vs) in
      let some_counted = counted v vs zeros in
      let not_zero : (total.1 == 0) ≡ false = ground arith in
      (
        map (λ x. divide x total.1) total.0,
        rw (centroid_of, not_zero) refl,
        length-map (λ x. divide x total.1) total.0
            ∙ (sum_onto-bounds (length v) zeros 0 (v ∷ vs)).0
            ∙ length-replicate (length v) zero_number,
      )

  -- The centroid is taken of the vectors of the chunks that the sources of the revision name, each once,
  -- and as soon as there is a vector there is a centroid, of the dimension of the first one.
  pub get_source_chunk_embedding_centroid_lem :
      (model : Text) (r : WikiRevision) (sources : List RevisionSource)
      (chunks : List (ChunkEmbedding Number))
      → let ids =
          first_chunks []
            (map (λ s. s.source_chunk_id) (keep (λ s. s.wiki_revision_id == r.id) sources)) in
        (get_source_chunk_embedding_centroid Number float zero_number add divide model
            (some r)
            sources
            chunks
          ≡ centroid_of Number float zero_number add divide (vectors_of float model chunks ids))
        × ((v : List Number) (vs : List (List Number))
            → vectors_of float model chunks ids ≡ v ∷ vs
            → (c : List Number) × (get_source_chunk_embedding_centroid Number float zero_number add
                  divide model
                  (some r)
                  sources
                  chunks
                ≡ some c)
              × (length c ≡ length v))
  unfolding get_source_chunk_embedding_centroid
  get_source_chunk_embedding_centroid_lem model r sources chunks =
      let rows = map (λ s. s.source_chunk_id) (keep (λ s. s.wiki_revision_id == r.id) sources) in
      let same =
        ap (centroid_of Number float zero_number add divide)
          (source_vectors-eq model chunks [] rows) in
      (
        same,
        λ v vs e.
            let (c, found, sized) = centroid_of-sized v vs in
            (c, same ∙ ap (centroid_of Number float zero_number add divide) e ∙ found, sized),
      )
