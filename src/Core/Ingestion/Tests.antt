-- ===== src/Core/Ingestion/Tests.antt =====
-- The page of sources at small tables.
use Prim.{tt}
use hivewiki_web.Base.{ℕ, ◌+◌, ◌≡◌, refl, Bool, true, false, none, some, [], ◌∷◌, map}
use hivewiki_web.Base.Text.{Text, codes, text_eq}
use hivewiki_web.Core.Ingestion.{
  Source, SourceDocument, IngestionJob, Tables, AnnotatedSource, SourceHealth, healthy, warning,
  failing, paused, annotated, classify_source_health, health_filter, health_counts, pending,
  not_requested, queued, SourceDocumentFetchStatus,
}
use hivewiki_web.Core.Ingestion.Health.{health_value, same_health, shown, health_counts_lem}
use hivewiki_web.Core.Ingestion.Sources.{SourceData, admin_source_edit_modal, post_source}
use hivewiki_web.Core.Ingestion.Integrity.{AreReferenced, admin_source_edit_modal-AreReferenced}

abbrev source : ℕ → Text → Bool → Source
source id name enabled = record {
  id = id;
  name = name;
  target_url = codes "u";
  enabled = enabled;
  poll_interval_minutes = 30;
  next_poll_at = 0;
  last_error_message = some [];
  consecutive_failures = 0;
  created_at = 0;
  updated_at = 0;
}

abbrev document : ℕ → ℕ → SourceDocumentFetchStatus → SourceDocument
document id source_id fetch_status = record {
  id = id;
  source_id = source_id;
  canonical_url = codes "v";
  title = codes "t";
  fetch_status = fetch_status;
  wiki_status = not_requested;
  collected_at = id;
}

abbrev job : ℕ → ℕ → IngestionJob
job id source_document_id = record {
  id = id;
  source_document_id = source_document_id;
  status = queued;
  error_message = none;
  queued_at = id;
}

abbrev tables : Tables
tables = record {
  sources = source 1 (codes "b") true ∷ source 2 (codes "a") false ∷ source 3 (codes "c") true ∷ [];
  documents = document 4 1 pending ∷ document 5 3 SourceDocumentFetchStatus.failed ∷ [];
  jobs = job 6 4 ∷ job 7 5 ∷ [];
}

-- The third source fails, the first one waits.
failing_run : classify_source_health (annotated tables (source 3 (codes "c") true)) ≡ failing
unfolding classify_source_health text_eq
failing_run = refl

health_counts_lem_example :
    let rows = map (annotated tables) tables.sources in
    ((h : SourceHealth) (a : AnnotatedSource)
      → health_filter (health_value h) a ≡ same_health (classify_source_health a) h)
    × ((health_counts tables).healthy_source_count ≡ shown healthy rows)
    × ((health_counts tables).warning_source_count ≡ shown warning rows)
    × ((health_counts tables).failing_source_count ≡ shown failing rows)
    × ((health_counts tables).paused_source_count ≡ shown paused rows)
    × (shown healthy rows + shown warning rows + shown failing rows + shown paused rows ≡ 3)
health_counts_lem_example = health_counts_lem tables

abbrev posted : SourceData
posted = record {
  name = codes "d";
  target_url = codes "u";
  enabled = true;
  poll_interval_minutes = 5;
  next_poll_at = 0;
}

admin_source_edit_modal-AreReferenced_example :
    AreReferenced (admin_source_edit_modal 9 1 (codes "delete") posted tables).1
    × AreReferenced (post_source 9 8 posted tables).1
admin_source_edit_modal-AreReferenced_example =
    admin_source_edit_modal-AreReferenced 9 1 8 (codes "delete") posted tables
      ((refl, (refl, tt)), (refl, (refl, tt)))
