-- ===== src/Core/Ingestion/Sources.antt =====
-- What writes to the sources: SourceForm of apps/core/forms.py, the POST of admin_ingestion_management and
-- admin_source_edit_modal of apps/core/views.py. The rows that hang on documents elsewhere are left out.
use hivewiki_web.Base.{
  ℕ, Bool, true, ◌&&◌, Option, none, some, [], ◌∷◌, ◌==◌, if◌then◌else◌, discard, any_of,
  first_of_rows, update_of, Result, ok, err, ◌>>=◌,
}
use hivewiki_web.Base.Text.{Text, codes, text_eq, strip}
use hivewiki_web.Core.Forms.{FormError, clean_poll_interval_minutes}
use hivewiki_web.Core.Ingestion.{Source, Tables}

-- What the fields of SourceForm accept.
pub record SourceData : Type 0 where
  pub name : Text
  pub target_url : Text
  pub enabled : Bool
  pub poll_interval_minutes : ℕ
  pub next_poll_at : ℕ

-- The three `clean_…` methods.
unfoldable pub source_form : SourceData → Result FormError SourceData
source_form data_posted = do
  minutes ← clean_poll_interval_minutes data_posted.poll_interval_minutes
  ok (record data_posted {
    name = strip data_posted.name;
    target_url = strip data_posted.target_url;
    poll_interval_minutes = minutes;
  })

-- `form.save(commit=False)` on a row, and `updated_at`.
abbrev pub with_data : ℕ → SourceData → Source → Source
with_data now d s = record s {
  name = d.name;
  target_url = d.target_url;
  enabled = d.enabled;
  poll_interval_minutes = d.poll_interval_minutes;
  next_poll_at = d.next_poll_at;
  updated_at = now;
}

abbrev pub new_source : ℕ → ℕ → Source
new_source now id = record {
  id = id;
  name = [];
  target_url = [];
  enabled = true;
  poll_interval_minutes = 30;
  next_poll_at = now;
  last_error_message = none;
  consecutive_failures = 0;
  created_at = now;
  updated_at = now;
}

pub data SourceResponse : Type 0 where
  form_page : FormError → SourceResponse
  saved deleted : Text → SourceResponse
  not_found : SourceResponse

abbrev pub created : ℕ → ℕ → Tables → Result FormError SourceData → SourceResponse × Tables
created now id t (err e) = (form_page e, t)
created now id t (ok d) =
    (saved d.name, record t { sources = with_data now d (new_source now id) ∷ t.sources })

-- The POST of admin_ingestion_management; `id` is the key of the new row.
unfoldable pub post_source : ℕ → ℕ → SourceData → Tables → SourceResponse × Tables
post_source now id d t = created now id t (source_form d)

-- `source.delete()`: the documents of the source and their jobs go with it.
unfoldable pub delete_source : ℕ → Tables → Tables
delete_source id t = record {
  sources = discard (λ s. s.id == id) t.sources;
  documents = discard (λ d. d.source_id == id) t.documents;
  jobs =
      discard (λ j. any_of (λ d. d.id == j.source_document_id && d.source_id == id) t.documents)
        t.jobs;
}

abbrev pub edited : ℕ → ℕ → Tables → Result FormError SourceData → SourceResponse × Tables
edited now id t (err e) = (form_page e, t)
edited now id t (ok d) =
    (saved d.name, record t { sources = update_of (λ s. s.id == id) (with_data now d) t.sources })

abbrev pub edit_found : ℕ → ℕ → Text → SourceData → Tables → Option Source → SourceResponse × Tables
edit_found now id action d t none = (not_found, t)
edit_found now id action d t (some s) =
    if text_eq action (codes "delete")
    then (deleted s.name, delete_source id t)
    else edited now id t (source_form d)

-- A POST of the modal.
unfoldable pub admin_source_edit_modal :
    ℕ → ℕ → Text → SourceData → Tables → SourceResponse × Tables
admin_source_edit_modal now id action d t =
    edit_found now id action d t (first_of_rows (λ s. s.id == id) t.sources)
