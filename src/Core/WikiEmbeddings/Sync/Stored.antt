-- ===== src/Core/WikiEmbeddings/Sync/Stored.antt =====
-- Where a row of embeddings is written, and what the rows of other pages are.
use hivewiki_web.Base.{
  ℕ, ◌≡◌, refl, ap, ◌∙◌, Bool, true, false, not, ◌&&◌, ◌||◌, Option, none, some, List, [], ◌∷◌,
  ◌==◌, length, first_of_rows, update_of, arith, Bool-cases, inl, inr,
}
use hivewiki_web.Base.Text.{Text, text_eq, text_eq_refl}
use hivewiki_web.Core.WikiEmbeddings.{Provider, WikiDocumentEmbedding}
use hivewiki_web.Core.WikiEmbeddings.Sync.{
  EmbeddingSettings, is_embedding_of, filled, update_or_create, store_vector,
}

module _ {A : Type 0} (p : A → Bool) (f : A → A) (keeps : (x : A) → p (f x) ≡ p x) where
  first-update_of :
      (xs : List A) (x : A)
      → first_of_rows p xs ≡ some x
      → first_of_rows p (update_of p f xs) ≡ some (f x)
  first-update_of [] x h = cc (h)
  first-update_of (y ∷ xs) x h = elim (Bool-cases (p y)) [
    | inl e ↦
        let both : some y ≡ some x = rw e at h in
        let same : y ≡ x = cc (both) in rw (e, keeps y ∙ e) (ap (λ z. some (f z)) same)
    | inr e ↦ rw (e, e) (first-update_of xs x (let rest = rw e at h in rest))
  ]

  first-update_of_other :
      (q : A → Bool) (xs : List A)
      → ((x : A) → p x ≡ true → (q x ≡ false) × (q (f x) ≡ false))
      → first_of_rows q (update_of p f xs) ≡ first_of_rows q xs
  first-update_of_other q [] apart = refl
  first-update_of_other q (x ∷ xs) apart =
      let ih = first-update_of_other q xs apart in
      elim (Bool-cases (p x)) [
        | inl e ↦ let (before, after) = apart x e in rw (e, before, after) ih
        | inr e ↦ rw (e, ih) refl
      ]

module _ (Number : Type 0) (float : Text → Number) (zero_number : Number)
    (add : Number → Number → Number) (divide : Number → ℕ → Number) (sha256_hex : Text → Text)
    (embed : Text → Text → ℕ → Option (List Number)) (settings : EmbeddingSettings) where
  -- The row of a page, and what a sync guarantees of it.
  abbrev pub row_of :
      ℕ → List (WikiDocumentEmbedding Number) → Option (WikiDocumentEmbedding Number)
  row_of document_id =
      first_of_rows
        (is_embedding_of Number float zero_number add divide sha256_hex embed settings document_id)

  row_of-update_or_create :
      (now document_id revision_id : ℕ) (hash : Text) (v : List Number) (provider : Provider)
      (o : Option (WikiDocumentEmbedding Number)) (rows : List (WikiDocumentEmbedding Number))
      → row_of document_id rows ≡ o
      → let (e, rows') =
          update_or_create Number float zero_number add divide sha256_hex embed settings now
            document_id revision_id hash v provider o rows in
        (row_of document_id rows' ≡ some e)
        × (e.wiki_revision_id ≡ revision_id)
        × (e.content_hash ≡ hash)
        × (e.embedding ≡ v)
        × (e.provider ≡ provider)
  unfolding update_or_create
  row_of-update_or_create now document_id revision_id hash v provider none rows h =
      (rw (text_eq_refl settings.wiki_embedding_model) (ground arith), refl, refl, refl, refl)
  row_of-update_or_create now document_id revision_id hash v provider (some e) rows h = (
    first-update_of
        (is_embedding_of Number float zero_number add divide sha256_hex embed settings document_id)
        (filled Number float zero_number add divide sha256_hex embed settings now revision_id hash v
          provider)
        (λ x. refl) rows e h,
    refl,
    refl,
    refl,
    refl,
  )

  others-update_or_create :
      (now document_id other revision_id : ℕ) (hash : Text) (v : List Number) (provider : Provider)
      (o : Option (WikiDocumentEmbedding Number)) (rows : List (WikiDocumentEmbedding Number))
      → (document_id == other) ≡ false
      → row_of other
          (update_or_create Number float zero_number add divide sha256_hex embed settings now
            document_id revision_id hash v provider o rows).1
        ≡ row_of other rows
  unfolding update_or_create
  others-update_or_create now document_id other revision_id hash v provider none rows apart =
      rw apart refl
  others-update_or_create now document_id other revision_id hash v provider (some e) rows apart =
      first-update_of_other
        (is_embedding_of Number float zero_number add divide sha256_hex embed settings document_id)
        (filled Number float zero_number add divide sha256_hex embed settings now revision_id hash v
          provider)
        (λ x. refl)
        (is_embedding_of Number float zero_number add divide sha256_hex embed settings other) rows
        (λ x this.
          let no_other =
            unlike x.wiki_document_id (text_eq x.embedding_model settings.wiki_embedding_model)
              this in
          (rw no_other refl, rw no_other refl))
    where
      unlike : (n : ℕ) (b : Bool) → (n == document_id) && b ≡ true → (n == other) ≡ false
      unlike n b this = ground arith

  -- The row of the page is that of the revision with that hash, and other pages keep their rows.
  abbrev pub IsCurrent :
      ℕ
      → ℕ
      → Text
      → List (WikiDocumentEmbedding Number)
      → WikiDocumentEmbedding Number
      → List (WikiDocumentEmbedding Number)
      → Type 0
  IsCurrent document_id revision_id hash rows e rows' =
      (row_of document_id rows' ≡ some e)
      × (e.wiki_revision_id ≡ revision_id)
      × (e.content_hash ≡ hash)
      × ((other : ℕ) → (document_id == other) ≡ false → row_of other rows' ≡ row_of other rows)

  pub store_vector-IsCurrent :
      (now document_id revision_id : ℕ) (hash : Text) (o : Option (List Number × Provider))
      (rows rows' : List (WikiDocumentEmbedding Number)) (e : WikiDocumentEmbedding Number)
      → store_vector Number float zero_number add divide sha256_hex embed settings now document_id
          revision_id hash o
          (row_of document_id rows)
          rows
        ≡ (some e, rows')
      → IsCurrent document_id revision_id hash rows e rows'
        × (o ≡ some (e.embedding, e.provider))
        × (length e.embedding ≡ 1536)
  unfolding store_vector
  store_vector-IsCurrent now document_id revision_id hash none rows rows' e done =
      let absent : ◌≡◌ {A = Option (WikiDocumentEmbedding Number)} none (some e) =
        ap (λ r. r.0) done in
      cc (absent)
  store_vector-IsCurrent now document_id revision_id hash (some (v, provider)) rows rows' e done =
      let written =
        update_or_create Number float zero_number add divide sha256_hex embed settings now
          document_id revision_id hash v provider (row_of document_id rows) rows in
      let (row, revised, hashed, embedded, provided) =
        row_of-update_or_create now document_id revision_id hash v provider
          (row_of document_id rows) rows refl in
      let refused =
        not (settings.wiki_embedding_dim == 1536)
        || not (length v == settings.wiki_embedding_dim) in
      elim (Bool-cases refused) [
        | inl f ↦
            let both = rw (store_vector, f) at done in
            let absent : ◌≡◌ {A = Option (WikiDocumentEmbedding Number)} none (some e) =
              ap (λ r. r.0) both in
            cc (absent)
        | inr f ↦
            let both : ◌≡◌
                {A = Option (WikiDocumentEmbedding Number) × List (WikiDocumentEmbedding Number)}
                (some written.0, written.1) (some e, rows') =
              rw (store_vector, f) at done in
            let same_row : written.0 ≡ e = cc (both) in
            let same_rows : written.1 ≡ rows' = cc (both) in
            let size : length v ≡ 1536 = ground arith in
            rw (← same_row, ← same_rows)
              (
                (
                  row,
                  revised,
                  hashed,
                  λ other apart.
                      others-update_or_create now document_id other revision_id hash v provider
                        (row_of document_id rows) rows apart,
                ),
                rw (embedded, provided) refl,
                ap length embedded ∙ size,
              )
      ]
