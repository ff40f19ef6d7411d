-- ===== src/Core/Ingestion.antt =====
-- The sources of documents in apps/core/models.py, and admin_ingestion_management of apps/core/views.py:
-- which sources, documents and jobs the page shows, and how the health of a source is told. The
-- database's `icontains` and the order of names are parameters; a count of failures is never negative.
pub mod Health
pub mod Sources
pub mod Integrity
mod Tests
use hivewiki_web.Base.{
  ℕ, zero, suc, ◌+◌, Bool, true, false, not, ◌&&◌, ◌||◌, Option, none, some, List, [], ◌∷◌, ◌==◌,
  ltb, leb, if◌then◌else◌, keep, any_of, count_of, map, length,
}
use hivewiki_web.Base.Text.{Text, codes, text_eq, is_empty, strip}
use hivewiki_web.Accounts.OAuth.{text_or_empty}

pub data IngestionJobStatus : Type 0 where
  queued started completed failed : IngestionJobStatus

pub data SourceDocumentFetchStatus : Type 0 where
  pending fetched failed : SourceDocumentFetchStatus

pub data SourceDocumentWikiStatus : Type 0 where
  not_requested requested completed failed : SourceDocumentWikiStatus

pub record Source : Type 0 where
  pub id : ℕ
  pub name : Text
  pub target_url : Text
  pub enabled : Bool
  pub poll_interval_minutes : ℕ
  pub next_poll_at : ℕ
  pub last_error_message : Option Text
  pub consecutive_failures : ℕ
  pub created_at : ℕ
  pub updated_at : ℕ

pub record SourceDocument : Type 0 where
  pub id : ℕ
  pub source_id : ℕ
  pub canonical_url : Text
  pub title : Text
  pub fetch_status : SourceDocumentFetchStatus
  pub wiki_status : SourceDocumentWikiStatus
  pub collected_at : ℕ

pub record IngestionJob : Type 0 where
  pub id : ℕ
  pub source_document_id : ℕ
  pub status : IngestionJobStatus
  pub error_message : Option Text
  pub queued_at : ℕ

pub record Tables : Type 0 where
  pub sources : List Source
  pub documents : List SourceDocument
  pub jobs : List IngestionJob

-- The values of the choices.
abbrev pub fetch_value : SourceDocumentFetchStatus → Text
fetch_value pending = codes "PENDING"
fetch_value fetched = codes "FETCHED"
fetch_value SourceDocumentFetchStatus.failed = codes "FAILED"

abbrev pub wiki_value : SourceDocumentWikiStatus → Text
wiki_value not_requested = codes "NOT_REQUESTED"
wiki_value requested = codes "REQUESTED"
wiki_value SourceDocumentWikiStatus.completed = codes "COMPLETED"
wiki_value SourceDocumentWikiStatus.failed = codes "FAILED"

abbrev pub job_value : IngestionJobStatus → Text
job_value queued = codes "QUEUED"
job_value started = codes "STARTED"
job_value IngestionJobStatus.completed = codes "COMPLETED"
job_value IngestionJobStatus.failed = codes "FAILED"

-- A source with the counts of the query. A job belongs to the source of its document.
pub record AnnotatedSource : Type 0 where
  pub source : Source
  pub document_count : ℕ
  pub pending_document_count : ℕ
  pub failed_document_count : ℕ
  pub queued_job_count : ℕ
  pub failed_job_count : ℕ

abbrev pub documents_with : (SourceDocument → Bool) → ℕ → Tables → ℕ
documents_with p id t = count_of (λ d. d.source_id == id && p d) t.documents

abbrev pub jobs_with : Text → ℕ → Tables → ℕ
jobs_with status id t =
    count_of
      (λ j.
        any_of (λ d. d.id == j.source_document_id && d.source_id == id) t.documents
        && text_eq (job_value j.status) status)
      t.jobs

abbrev pub annotated : Tables → Source → AnnotatedSource
annotated t s = record {
  source = s;
  document_count = documents_with (λ d. true) s.id t;
  pending_document_count =
      documents_with (λ d. text_eq (fetch_value d.fetch_status) (codes "PENDING")) s.id t;
  failed_document_count =
      documents_with (λ d. text_eq (fetch_value d.fetch_status) (codes "FAILED")) s.id t;
  queued_job_count = jobs_with (codes "QUEUED") s.id t;
  failed_job_count = jobs_with (codes "FAILED") s.id t;
}

-- The status of `_classify_source_health`; its labels and classes go with it.
pub data SourceHealth : Type 0 where
  healthy warning failing paused : SourceHealth

-- `source.last_error_message` as a condition.
abbrev pub has_error : Source → Bool
has_error s = not (is_empty (text_or_empty s.last_error_message))

unfoldable pub classify_source_health : AnnotatedSource → SourceHealth
classify_source_health a =
    if not a.source.enabled
    then paused
    else if ltb 0 a.source.consecutive_failures
        || ltb 0 a.failed_document_count
        || ltb 0 a.failed_job_count
        || has_error a.source
    then failing
    else if ltb 0 a.pending_document_count || ltb 0 a.queued_job_count
    then warning
    else healthy

-- `Q(last_error_message__isnull=True) | Q(last_error_message="")`
abbrev pub is_without_error : Option Text → Bool
is_without_error none = true
is_without_error (some t) = text_eq t []

-- `Q(last_error_message__isnull=False) & ~Q(last_error_message="")`
abbrev pub is_with_error : Option Text → Bool
is_with_error none = false
is_with_error (some t) = not (text_eq t [])

-- `.filter(enabled=…)` by `source_enabled`, and the chain of filters by `source_health`.
abbrev pub enabled_filter : Text → AnnotatedSource → Bool
enabled_filter selected a =
    if text_eq selected (codes "enabled")
    then a.source.enabled
    else if text_eq selected (codes "disabled")
    then not a.source.enabled
    else true

unfoldable pub health_filter : Text → AnnotatedSource → Bool
health_filter selected a =
    if text_eq selected (codes "healthy")
    then a.source.enabled
      && a.source.consecutive_failures == 0
      && a.failed_document_count == 0
      && a.failed_job_count == 0
      && a.pending_document_count == 0
      && a.queued_job_count == 0
      && is_without_error a.source.last_error_message
    else if text_eq selected (codes "warning")
    then a.source.enabled
      && a.source.consecutive_failures == 0
      && a.failed_document_count == 0
      && a.failed_job_count == 0
      && is_without_error a.source.last_error_message
      && (ltb 0 a.pending_document_count || ltb 0 a.queued_job_count)
    else if text_eq selected (codes "failing")
    then a.source.enabled
      && (ltb 0 a.source.consecutive_failures
          || ltb 0 a.failed_document_count
          || ltb 0 a.failed_job_count
          || is_with_error a.source.last_error_message)
    else if text_eq selected (codes "paused")
    then not a.source.enabled
    else true

-- `order_by`: the rows of one key stand as they are.
unfoldable pub insert_by : {A : Type 0} → (A → A → Bool) → A → List A → List A
insert_by before a [] = a ∷ []
insert_by before a (b ∷ bs) = if before a b then a ∷ b ∷ bs else b ∷ insert_by before a bs

unfoldable pub order_by : {A : Type 0} → (A → A → Bool) → List A → List A
order_by before [] = []
order_by before (a ∷ as') = insert_by before a (order_by before as')

module _ (icontains : Text → Text → Bool) where
  unfoldable pub source_queryset :
      (Text → Text → Bool) → Text → Text → Text → Tables → List AnnotatedSource
  source_queryset name_before source_query source_health source_enabled t =
      let query = strip source_query in
      order_by (λ a b. name_before a.source.name b.source.name)
        (keep
          (λ a.
            (is_empty query || icontains a.source.name query || icontains a.source.target_url query)
            && enabled_filter (strip source_enabled) a
            && health_filter (strip source_health) a)
          (map (annotated t) t.sources))

  -- A text of the source of a document, which the foreign key finds.
  abbrev pub source_name_has : Text → ℕ → Tables → Bool
  source_name_has query id t = any_of (λ s. s.id == id && icontains s.name query) t.sources

  abbrev pub document_has : Text → Tables → SourceDocument → Bool
  document_has query t d =
      icontains d.title query
      || icontains d.canonical_url query
      || source_name_has query d.source_id t

  -- A selected status that is not a choice filters nothing.
  abbrev pub is_fetch_choice : Text → Bool
  is_fetch_choice s =
      any_of (λ c. text_eq (fetch_value c) s)
        (pending ∷ fetched ∷ SourceDocumentFetchStatus.failed ∷ [])

  abbrev pub is_wiki_choice : Text → Bool
  is_wiki_choice s =
      any_of (λ c. text_eq (wiki_value c) s)
        (not_requested ∷ requested ∷ SourceDocumentWikiStatus.completed
          ∷ SourceDocumentWikiStatus.failed ∷ [])

  abbrev pub is_job_choice : Text → Bool
  is_job_choice s =
      any_of (λ c. text_eq (job_value c) s)
        (queued ∷ started ∷ IngestionJobStatus.completed ∷ IngestionJobStatus.failed ∷ [])

  unfoldable pub recent_documents_queryset : Text → Text → Text → Tables → List SourceDocument
  recent_documents_queryset document_query fetch_status wiki_status t =
      let query = strip document_query in
      let fetch = strip fetch_status in
      let wiki = strip wiki_status in
      order_by (λ a b. leb b.collected_at a.collected_at)
        (keep
          (λ d.
            (is_empty query || document_has query t d)
            && (not (is_fetch_choice fetch) || text_eq (fetch_value d.fetch_status) fetch)
            && (not (is_wiki_choice wiki) || text_eq (wiki_value d.wiki_status) wiki))
          t.documents)

  unfoldable pub recent_jobs_queryset : Text → Text → Tables → List IngestionJob
  recent_jobs_queryset job_query job_status t =
      let query = strip job_query in
      let status = strip job_status in
      order_by (λ a b. leb b.queued_at a.queued_at)
        (keep
          (λ j.
            (is_empty query
              || any_of (λ d. d.id == j.source_document_id && document_has query t d) t.documents
              || icontains (text_or_empty j.error_message) query)
            && (not (is_job_choice status) || text_eq (job_value j.status) status))
          t.jobs)

-- The loop that counts the sources of each health.
pub record HealthCounts : Type 0 where
  pub healthy_source_count : ℕ
  pub paused_source_count : ℕ
  pub warning_source_count : ℕ
  pub failing_source_count : ℕ

abbrev pub count_health : SourceHealth → HealthCounts → HealthCounts
count_health healthy n = record n { healthy_source_count = n.healthy_source_count + 1 }
count_health paused n = record n { paused_source_count = n.paused_source_count + 1 }
count_health warning n = record n { warning_source_count = n.warning_source_count + 1 }
count_health failing n = record n { failing_source_count = n.failing_source_count + 1 }

unfoldable pub count_each : List AnnotatedSource → HealthCounts → HealthCounts
count_each [] n = n
count_each (a ∷ rows) n = count_each rows (count_health (classify_source_health a) n)

unfoldable pub health_counts : Tables → HealthCounts
health_counts t = count_each (map (annotated t) t.sources) (record {
  healthy_source_count = 0;
  paused_source_count = 0;
  warning_source_count = 0;
  failing_source_count = 0;
})
