-- ===== src/Core/Ingestion/Health.antt =====
-- The filter by health, the badge of a source and the counts of the page say the same.
use hivewiki_web.Base.{
  ℕ, zero, suc, ◌+◌, ◌≡◌, refl, sym, ap, ◌∙◌, Bool, true, false, not, ◌&&◌, ◌||◌, Option, none,
  some, List, [], ◌∷◌, ◌==◌, ltb, if◌then◌else◌, count_of, map, length, arith,
}
use hivewiki_web.Base.Text.{Text, codes, text_eq, is_empty}
use hivewiki_web.Accounts.OAuth.{text_or_empty}
use hivewiki_web.Core.Ingestion.{
  Source, AnnotatedSource, Tables, annotated, SourceHealth, healthy, warning, failing, paused,
  has_error, classify_source_health, is_without_error, is_with_error, health_filter, HealthCounts,
  count_health, count_each, health_counts,
}

abbrev pub health_value : SourceHealth → Text
health_value healthy = codes "healthy"
health_value warning = codes "warning"
health_value failing = codes "failing"
health_value paused = codes "paused"

abbrev pub same_health : SourceHealth → SourceHealth → Bool
same_health healthy healthy = true
same_health warning warning = true
same_health failing failing = true
same_health paused paused = true
same_health _ _ = false

zero_or_more : (n : ℕ) → (n == 0) ≡ not (ltb 0 n)
zero_or_more zero = refl
zero_or_more (suc n) = ground arith

without_error : (o : Option Text) → is_without_error o ≡ not (not (is_empty (text_or_empty o)))
unfolding text_eq
without_error none = refl
without_error (some []) = refl
without_error (some (c ∷ t)) = refl

with_error : (o : Option Text) → is_with_error o ≡ not (is_empty (text_or_empty o))
unfolding text_eq
with_error none = refl
with_error (some []) = refl
with_error (some (c ∷ t)) = refl

-- The status, told from whether the source is enabled, has failed polls, failed documents, failed jobs and
-- an error, and from whether documents and jobs wait.
abbrev told : (e f d j x p q : Bool) → SourceHealth
told e f d j x p q =
    if not e
    then paused
    else if f || d || j || x
    then failing
    else if p || q
    then warning
    else healthy

healthy-told :
    (e f d j x p q : Bool)
    → (e && not f && not d && not j && not p && not q && not x)
      ≡ same_health (told e f d j x p q) healthy
healthy-told false f d j x p q = refl
healthy-told true true d j x p q = refl
healthy-told true false true j x p q = refl
healthy-told true false false true x p q = refl
healthy-told true false false false true true q = refl
healthy-told true false false false true false true = refl
healthy-told true false false false true false false = refl
healthy-told true false false false false true q = refl
healthy-told true false false false false false true = refl
healthy-told true false false false false false false = refl

warning-told :
    (e f d j x p q : Bool)
    → (e && not f && not d && not j && not x && (p || q)) ≡ same_health (told e f d j x p q) warning
warning-told false f d j x p q = refl
warning-told true true d j x p q = refl
warning-told true false true j x p q = refl
warning-told true false false true x p q = refl
warning-told true false false false true true q = refl
warning-told true false false false true false true = refl
warning-told true false false false true false false = refl
warning-told true false false false false true q = refl
warning-told true false false false false false true = refl
warning-told true false false false false false false = refl

failing-told :
    (e f d j x p q : Bool) → (e && (f || d || j || x)) ≡ same_health (told e f d j x p q) failing
failing-told false f d j x p q = refl
failing-told true true d j x p q = refl
failing-told true false true j x p q = refl
failing-told true false false true x p q = refl
failing-told true false false false true true q = refl
failing-told true false false false true false true = refl
failing-told true false false false true false false = refl
failing-told true false false false false true q = refl
failing-told true false false false false false true = refl
failing-told true false false false false false false = refl

paused-told : (e f d j x p q : Bool) → (not e) ≡ same_health (told e f d j x p q) paused
paused-told false f d j x p q = refl
paused-told true true d j x p q = refl
paused-told true false true j x p q = refl
paused-told true false false true x p q = refl
paused-told true false false false true true q = refl
paused-told true false false false true false true = refl
paused-told true false false false true false false = refl
paused-told true false false false false true q = refl
paused-told true false false false false false true = refl
paused-told true false false false false false false = refl

-- The filter by a status shows the sources that have that status.
health_filter-eq-same_health :
    (h : SourceHealth) (a : AnnotatedSource)
    → health_filter (health_value h) a ≡ same_health (classify_source_health a) h
unfolding health_filter classify_source_health text_eq
health_filter-eq-same_health healthy a =
    rw
      (
        zero_or_more a.source.consecutive_failures,
        zero_or_more a.failed_document_count,
        zero_or_more a.failed_job_count,
        zero_or_more a.pending_document_count,
        zero_or_more a.queued_job_count,
        without_error a.source.last_error_message,
      )
      (healthy-told a.source.enabled (ltb 0 a.source.consecutive_failures)
        (ltb 0 a.failed_document_count) (ltb 0 a.failed_job_count) (has_error a.source)
        (ltb 0 a.pending_document_count) (ltb 0 a.queued_job_count))
health_filter-eq-same_health warning a =
    rw
      (
        zero_or_more a.source.consecutive_failures,
        zero_or_more a.failed_document_count,
        zero_or_more a.failed_job_count,
        without_error a.source.last_error_message,
      )
      (warning-told a.source.enabled (ltb 0 a.source.consecutive_failures)
        (ltb 0 a.failed_document_count) (ltb 0 a.failed_job_count) (has_error a.source)
        (ltb 0 a.pending_document_count) (ltb 0 a.queued_job_count))
health_filter-eq-same_health failing a = rw (with_error a.source.last_error_message) (
    failing-told a.source.enabled (ltb 0 a.source.consecutive_failures)
      (ltb 0 a.failed_document_count) (ltb 0 a.failed_job_count) (has_error a.source)
      (ltb 0 a.pending_document_count) (ltb 0 a.queued_job_count))
health_filter-eq-same_health paused a =
    paused-told a.source.enabled (ltb 0 a.source.consecutive_failures)
      (ltb 0 a.failed_document_count) (ltb 0 a.failed_job_count) (has_error a.source)
      (ltb 0 a.pending_document_count) (ltb 0 a.queued_job_count)

-- The count of the sources that a filter shows.
abbrev pub shown : SourceHealth → List AnnotatedSource → ℕ
shown h = count_of (health_filter (health_value h))

abbrev pub CountsOf : List AnnotatedSource → HealthCounts → HealthCounts → Type 0
CountsOf rows n m =
    (m.healthy_source_count ≡ n.healthy_source_count + shown healthy rows)
    × (m.warning_source_count ≡ n.warning_source_count + shown warning rows)
    × (m.failing_source_count ≡ n.failing_source_count + shown failing rows)
    × (m.paused_source_count ≡ n.paused_source_count + shown paused rows)

-- The number that a filter shows of a source with the status `g` and of more rows.
abbrev one_more : SourceHealth → SourceHealth → List AnnotatedSource → ℕ
one_more g h rows = if same_health g h then suc (shown h rows) else shown h rows

shown_lem :
    (h : SourceHealth) (a : AnnotatedSource) (rows : List AnnotatedSource)
    → shown h (a ∷ rows) ≡ one_more (classify_source_health a) h rows
shown_lem h a rows = rw (health_filter-eq-same_health h a) refl

count_health_lem :
    (g : SourceHealth) (rows : List AnnotatedSource) (n m : HealthCounts)
    → CountsOf rows (count_health g n) m
    → (m.healthy_source_count ≡ n.healthy_source_count + one_more g healthy rows)
      × (m.warning_source_count ≡ n.warning_source_count + one_more g warning rows)
      × (m.failing_source_count ≡ n.failing_source_count + one_more g failing rows)
      × (m.paused_source_count ≡ n.paused_source_count + one_more g paused rows)
count_health_lem healthy rows n m (h, w, f, p) = (omega (arith, h), w, f, p)
count_health_lem warning rows n m (h, w, f, p) = (h, omega (arith, w), f, p)
count_health_lem failing rows n m (h, w, f, p) = (h, w, omega (arith, f), p)
count_health_lem paused rows n m (h, w, f, p) = (h, w, f, omega (arith, p))

count_each-CountsOf :
    (rows : List AnnotatedSource) (n : HealthCounts) → CountsOf rows n (count_each rows n)
unfolding count_each
count_each-CountsOf [] n = (omega arith, omega arith, omega arith, omega arith)
count_each-CountsOf (a ∷ rows) n =
    let g = classify_source_health a in
    let (h, w, f, p) =
      count_health_lem g rows n (count_each rows (count_health g n))
        (count_each-CountsOf rows (count_health g n)) in
    (
      h ∙ ap (λ (k : ℕ). n.healthy_source_count + k) (sym (shown_lem healthy a rows)),
      w ∙ ap (λ (k : ℕ). n.warning_source_count + k) (sym (shown_lem warning a rows)),
      f ∙ ap (λ (k : ℕ). n.failing_source_count + k) (sym (shown_lem failing a rows)),
      p ∙ ap (λ (k : ℕ). n.paused_source_count + k) (sym (shown_lem paused a rows)),
    )

one_of_four :
    (g : SourceHealth) (rows : List AnnotatedSource)
    → one_more g healthy rows
        + one_more g warning rows
        + one_more g failing rows
        + one_more g paused rows
      ≡ suc (shown healthy rows + shown warning rows + shown failing rows + shown paused rows)
one_of_four healthy rows = omega arith
one_of_four warning rows = omega arith
one_of_four failing rows = omega arith
one_of_four paused rows = omega arith

all_shown :
    (t : Tables) (sources : List Source)
    → let rows = map (annotated t) sources in
      shown healthy rows + shown warning rows + shown failing rows + shown paused rows
      ≡ length sources
all_shown t [] = refl
all_shown t (s ∷ sources) =
    let rows = map (annotated t) sources in
    let a = annotated t s in
    rw
      (
        health_filter-eq-same_health healthy a,
        health_filter-eq-same_health warning a,
        health_filter-eq-same_health failing a,
        health_filter-eq-same_health paused a,
      )
      (one_of_four (classify_source_health a) rows ∙ ap suc (all_shown t sources))

-- The page is consistent: its filter by a status shows the sources whose badge tells that status, its four
-- counts are the numbers of sources that the filter shows, and together they are all sources.
pub health_counts_lem :
    (t : Tables)
    → let rows = map (annotated t) t.sources in
      ((h : SourceHealth) (a : AnnotatedSource)
        → health_filter (health_value h) a ≡ same_health (classify_source_health a) h)
      × ((health_counts t).healthy_source_count ≡ shown healthy rows)
      × ((health_counts t).warning_source_count ≡ shown warning rows)
      × ((health_counts t).failing_source_count ≡ shown failing rows)
      × ((health_counts t).paused_source_count ≡ shown paused rows)
      × (shown healthy rows + shown warning rows + shown failing rows + shown paused rows
          ≡ length t.sources)
unfolding health_counts
health_counts_lem t =
    let none_yet : HealthCounts = record {
      healthy_source_count = 0;
      paused_source_count = 0;
      warning_source_count = 0;
      failing_source_count = 0;
    } in
    let (h, w, f, p) = count_each-CountsOf (map (annotated t) t.sources) none_yet in
    (
      health_filter-eq-same_health,
      omega (arith, h),
      omega (arith, w),
      omega (arith, f),
      omega (arith, p),
      all_shown t t.sources,
    )
