-- ===== src/Core/Ingestion/Integrity.antt =====
-- The foreign keys of documents and jobs.
use hivewiki_web.Base.{
  ℕ, ◌≡◌, refl, ◌∙◌, Bool, true, false, ◌&&◌, ◌||◌, List, [], ◌∷◌, ◌==◌, discard, any_of, any_apart,
  first_of_rows, update_of, All, Result-cases, Option-cases, Bool-cases, inl, inr, arith,
}
use hivewiki_web.Base.Text.{Text, codes, text_eq}
use hivewiki_web.Core.Ingestion.{Source, SourceDocument, IngestionJob, Tables}
use hivewiki_web.Core.Ingestion.Sources.{
  SourceData, with_data, new_source, source_form, post_source, delete_source,
  admin_source_edit_modal,
}

-- Every document has a source, and every job a document.
abbrev pub AreReferenced : Tables → Type 0
AreReferenced t =
    All (λ d. any_of (λ s. s.id == d.source_id) t.sources ≡ true) t.documents
    × All (λ j. any_of (λ d. d.id == j.source_document_id) t.documents ≡ true) t.jobs

source_left :
    (id key : ℕ) (sources : List Source)
    → (key == id) ≡ false
    → any_of (λ s. s.id == key) sources ≡ true
    → any_of (λ s. s.id == key) (discard (λ s. s.id == id) sources) ≡ true
source_left id key [] other h = h
source_left id key (s ∷ sources) other h = ground (arith, source_left id key sources other)

documents_left :
    (id : ℕ) (sources : List Source) (ds : List SourceDocument)
    → All (λ d. any_of (λ s. s.id == d.source_id) sources ≡ true) ds
    → All
        (λ d. any_of (λ s. s.id == d.source_id) (discard (λ s. s.id == id) sources) ≡ true)
        (discard (λ d. d.source_id == id) ds)
documents_left id sources [] h = h
documents_left id sources (d ∷ ds) (h, hs) =
    let rest = documents_left id sources ds hs in
    elim (Bool-cases (d.source_id == id)) [
      | inl e ↦ rw e rest
      | inr e ↦ rw e (source_left id d.source_id sources e h, rest)
    ]

-- A document that is not of the source stays.
document_left :
    (id key : ℕ) (ds : List SourceDocument)
    → any_of (λ d. d.id == key) ds ≡ true
    → any_of (λ d. d.id == key && d.source_id == id) ds ≡ false
    → any_of (λ d. d.id == key) (discard (λ d. d.source_id == id) ds) ≡ true
document_left id key [] h k = h
document_left id key (d ∷ ds) h k =
    let (e, k') = any_apart (λ x. x.id == key && x.source_id == id) d ds k in
    elim (Bool-cases (d.source_id == id)) [
      | inl f ↦ elim (Bool-cases (d.id == key)) [
        | inl g ↦ let no_row = rw (g, f) at e in cc (no_row)
        | inr g ↦ rw f (document_left id key ds (let later = rw g at h in later) k')
      ]
      | inr f ↦ elim (Bool-cases (d.id == key)) [
        | inl g ↦ rw (f, g) refl
        | inr g ↦ rw (f, g) (document_left id key ds (let later = rw g at h in later) k')
      ]
    ]

jobs_left :
    (id : ℕ) (ds : List SourceDocument) (js : List IngestionJob)
    → All (λ j. any_of (λ d. d.id == j.source_document_id) ds ≡ true) js
    → All
        (λ j.
          any_of (λ d. d.id == j.source_document_id) (discard (λ d. d.source_id == id) ds) ≡ true)
        (discard (λ j. any_of (λ d. d.id == j.source_document_id && d.source_id == id) ds) js)
jobs_left id ds [] h = h
jobs_left id ds (j ∷ js) (h, hs) =
    let rest = jobs_left id ds js hs in
    elim (Bool-cases (any_of (λ d. d.id == j.source_document_id && d.source_id == id) ds)) [
      | inl e ↦ rw e rest
      | inr e ↦ rw e (document_left id j.source_document_id ds h e, rest)
    ]

sources_kept :
    (id key : ℕ) (f : Source → Source) (sources : List Source)
    → ((s : Source) → (f s).id ≡ s.id)
    → any_of (λ s. s.id == key) (update_of (λ s. s.id == id) f sources)
      ≡ any_of (λ s. s.id == key) sources
sources_kept id key f [] keeps = refl
sources_kept id key f (s ∷ sources) keeps =
    let rest = sources_kept id key f sources keeps in
    elim (Bool-cases (s.id == id)) [
      | inl e ↦ rw (e, keeps s, rest) refl
      | inr e ↦ rw (e, rest) refl
    ]

documents_kept :
    (before after : List Source) (ds : List SourceDocument)
    → ((key : ℕ) → any_of (λ s. s.id == key) before ≡ true → any_of (λ s. s.id == key) after ≡ true)
    → All (λ d. any_of (λ s. s.id == d.source_id) before ≡ true) ds
    → All (λ d. any_of (λ s. s.id == d.source_id) after ≡ true) ds
documents_kept before after [] keeps h = h
documents_kept before after (d ∷ ds) keeps (h, hs) =
    (keeps d.source_id h, documents_kept before after ds keeps hs)

one_more_source : (a b : Bool) → b ≡ true → a || b ≡ true
one_more_source true b h = refl
one_more_source false b h = h

post-AreReferenced :
    (now id : ℕ) (d : SourceData) (t : Tables)
    → AreReferenced t
    → AreReferenced (post_source now id d t).1
unfolding post_source
post-AreReferenced now id d t (docs, jobs) = elim (Result-cases (source_form d)) [
  | inl (e, refused) ↦ rw (post_source, refused) (docs, jobs)
  | inr (c, accepted) ↦
      let new = with_data now c (new_source now id) in
      let grown =
        documents_kept t.sources (new ∷ t.sources) t.documents
          (λ key h. one_more_source (id == key) (any_of (λ s. s.id == key) t.sources) h) docs in
      rw (post_source, accepted) (grown, jobs)
]

delete-AreReferenced : (id : ℕ) (t : Tables) → AreReferenced t → AreReferenced (delete_source id t)
unfolding delete_source
delete-AreReferenced id t (docs, jobs) =
    (documents_left id t.sources t.documents docs, jobs_left id t.documents t.jobs jobs)

edit-AreReferenced :
    (now id : ℕ) (action : Text) (d : SourceData) (t : Tables)
    → AreReferenced t
    → AreReferenced (admin_source_edit_modal now id action d t).1
unfolding admin_source_edit_modal
edit-AreReferenced now id action d t (docs, jobs) =
    elim (Option-cases (first_of_rows (λ s. s.id == id) t.sources)) [
      | inl e ↦ rw (admin_source_edit_modal, e) (docs, jobs)
      | inr (s, e) ↦ elim (Bool-cases (text_eq action (codes "delete"))) [
        | inl g ↦ rw (admin_source_edit_modal, e, g) (delete-AreReferenced id t (docs, jobs))
        | inr g ↦ elim (Result-cases (source_form d)) [
          | inl (x, refused) ↦ rw (admin_source_edit_modal, e, g, refused) (docs, jobs)
          | inr (c, accepted) ↦
              let after = update_of (λ r. r.id == id) (with_data now c) t.sources in
              let kept =
                documents_kept t.sources after t.documents
                  (λ key h. sources_kept id key (with_data now c) t.sources (λ r. refl) ∙ h) docs in
              rw (admin_source_edit_modal, e, g, accepted) (kept, jobs)
        ]
      ]
    ]

-- Adding, editing or deleting a source leaves no document without its source and no job without its
-- document, if none was.
pub admin_source_edit_modal-AreReferenced :
    (now id new_id : ℕ) (action : Text) (d : SourceData) (t : Tables)
    → AreReferenced t
    → AreReferenced (admin_source_edit_modal now id action d t).1
      × AreReferenced (post_source now new_id d t).1
admin_source_edit_modal-AreReferenced now id new_id action d t referenced =
    (edit-AreReferenced now id action d t referenced, post-AreReferenced now new_id d t referenced)
