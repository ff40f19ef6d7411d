-- ===== src/Core/WikiMarkdown.antt =====
-- apps/core/wiki_markdown.py: headings of a wiki page, their ids, and the table of contents.
-- `slugify` is Django's, so it is a parameter.
pub mod Regex
pub mod Toc
pub mod Headings
mod Tests
use hivewiki_web.Base.{
  ℕ, zero, suc, ◌+◌, ◌-◌, min, Option, none, some, List, [], ◌∷◌, ◌++◌, ◌==◌, ltb, if◌then◌else◌,
  length, get_or, replicate,
}
use hivewiki_web.Base.Text.{
  Text, codes, is_empty, text_eq, strip, lstrip, decimal, splitlines, join_lines,
}
use hivewiki_web.Base.Dict.{Dict, lookup_or, insert}
use Regex.{match_heading, plain_heading_text}

pub record TocItem : Type 0 where
  pub level : ℕ
  pub text : Text
  pub id : Text

-- `base_id or "section"`
abbrev pub or_else : Text → Text → Text
or_else [] s = s
or_else (c ∷ t) s = c ∷ t

module _ (slugify : Text → Text) where
  unfoldable pub base_id : Text → Text
  base_id heading = or_else (slugify heading) (codes "section")

  -- The id, and `seen_ids` after the call.
  unfoldable pub unique_heading_id : Text → Dict ℕ → Text × Dict ℕ
  unfolding base_id
  unique_heading_id heading seen =
      let base = base_id heading in
      let count = lookup_or base 0 seen in
      (
        if count == 0 then base else base ++ codes "-" ++ decimal (count + 1),
        insert base (count + 1) seen,
      )

  -- The body of the loop for a line that is a heading: the new line, its entry, the ids seen.
  unfoldable pub heading_entry : Text × Text → Dict ℕ → Text × TocItem × Dict ℕ
  heading_entry (hashes, raw) seen =
      let heading = strip (plain_heading_text raw) in
      let (id, seen') = unique_heading_id heading seen in
      (
        hashes ++ codes " " ++ raw ++ codes " {#" ++ id ++ codes "}",
        record { level = length hashes; text = or_else heading (strip raw); id = id },
        seen',
      )

  unfoldable pub context_lines : List Text → Dict ℕ → List Text × List TocItem
  context_lines [] seen = ([], [])
  context_lines (line ∷ lines) seen = elim (match_heading line) [
    | none ↦ let (out, toc) = context_lines lines seen in (line ∷ out, toc)
    | some m ↦
        let (new, item, seen') = heading_entry m seen in
        let (out, toc) = context_lines lines seen' in (new ∷ out, item ∷ toc)
  ]

  unfoldable pub build_markdown_context : Text → Text × List TocItem
  unfolding context_lines
  build_markdown_context text =
      if is_empty text
      then ([], [])
      else let (out, toc) = context_lines (splitlines text) [] in (join_lines out, toc)

pub record AnnotatedItem : Type 0 where
  pub item : TocItem
  pub toc_level : ℕ
  pub label : Text

-- `min(int(item["level"]) for item in toc_items)` over a first item and the others.
abbrev pub min_level : ℕ → List TocItem → ℕ
min_level m [] = m
min_level m (x ∷ xs) = min_level (min m x.level) xs

-- `counters[index] += 1`; `none` is Python's IndexError.
unfoldable pub add_one_at : ℕ → List ℕ → Option (List ℕ)
add_one_at i [] = none
add_one_at zero (c ∷ cs) = some ((c + 1) ∷ cs)
add_one_at (suc i) (c ∷ cs) = elim (add_one_at i cs) [ none ↦ none | some ds ↦ some (c ∷ ds) ]

-- `for index in range(first, len(counters)): counters[index] = 0`
unfoldable pub zero_from : ℕ → List ℕ → List ℕ
zero_from first [] = []
zero_from zero (c ∷ cs) = 0 ∷ zero_from zero cs
zero_from (suc first) (c ∷ cs) = c ∷ zero_from first cs

unfoldable pub toc_label : ℕ → ℕ → Text
toc_label level index =
    if level == 1
    then decimal index ++ codes "."
    else if level == 2
    then (96 + index) ∷ codes "."
    else if level == 3
    then decimal index ++ codes ")"
    else if level == 4
    then (64 + index) ∷ codes ")"
    else decimal index ++ codes "."

unfoldable pub annotate_from : ℕ → List ℕ → List TocItem → Option (List AnnotatedItem)
annotate_from lowest counters [] = some []
annotate_from lowest counters (x ∷ xs) =
    let level = x.level - lowest + 1 in
    elim (add_one_at (level - 1) counters) [
      | none ↦ none
      | some bumped ↦
          let counters' = zero_from level bumped in
          let entry : AnnotatedItem = record {
            item = x;
            toc_level = level;
            label = toc_label level (get_or counters' (level - 1) 0);
          } in
          elim (annotate_from lowest counters' xs) [ none ↦ none | some out ↦ some (entry ∷ out) ]
    ]

unfoldable pub annotate_toc_items : List TocItem → Option (List AnnotatedItem)
unfolding annotate_from
annotate_toc_items [] = some []
annotate_toc_items (x ∷ xs) = annotate_from (min_level x.level xs) (replicate 6 0) (x ∷ xs)

-- The `while` that pops blank lines from the front.
unfoldable pub pop_blank : List Text → List Text
pop_blank [] = []
pop_blank (l ∷ ls) = if is_empty (strip l) then pop_blank ls else l ∷ ls

-- What follows the test that the first line is a heading.
unfoldable pub strip_matched : Text → Text → List Text → Option (Text × Text) → Text
unfolding pop_blank
strip_matched text title rest none = text
strip_matched text title rest (some (hashes, raw)) =
    if length hashes == 1
    then (if text_eq (plain_heading_text raw) (strip title)
        then join_lines (pop_blank rest)
        else text)
    else text

abbrev pub strip_lines : Text → Text → List Text → Text
strip_lines text title [] = text
strip_lines text title (l ∷ ls) = strip_matched text title ls (match_heading (strip l))

unfoldable pub strip_leading_title_heading : Text → Text → Text
strip_leading_title_heading text title =
    if is_empty text then [] else strip_lines text title (splitlines text)
