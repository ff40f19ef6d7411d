-- ===== src/Core/CommunityContent.antt =====
-- apps/core/community_content.py: the title, the body and the excerpt of a post, and the wiki pages
-- that it links to. `is_word` says which characters Python's `\w` stands for.
pub mod Excerpt
pub mod Links
pub mod Images
mod Tests
use hivewiki_web.Base.{
  ℕ, zero, suc, ◌+◌, ◌-◌, Bool, true, false, ◌&&◌, ◌||◌, Option, none, some, List, [], ◌∷◌, ◌++◌,
  ◌==◌, leb, if◌then◌else◌, length, take, any_of,
}
use hivewiki_web.Base.Text.{
  Text, codes, is_empty, is_space, text_eq, strip, lstrip, rstrip, splitlines, join_lines,
}
use hivewiki_web.Core.WikiMarkdown.{pop_blank}
use hivewiki_web.Core.WikiMarkdown.Regex.{match_heading, match_link, match_code, sub_matches}

-- `re.sub(r"[…]+", " ", text)`: each maximal run of the class becomes one space. The flag says that the
-- character before belongs to a run.
unfoldable pub collapse : (ℕ → Bool) → Bool → Text → Text
collapse in_class inside [] = []
collapse in_class inside (c ∷ s) =
    let rest = collapse in_class (in_class c) s in
    if in_class c then (if inside then rest else b' ' ∷ rest) else c ∷ rest

-- MARKDOWN_DECORATION_RE
unfoldable pub is_decoration : ℕ → Bool
is_decoration c = c == b'*' || c == b'_' || c == b'~' || c == b'>' || c == b'#' || c == b'-'

unfoldable pub plain_text : Text → Text
unfolding collapse is_decoration
plain_text value =
    let links = sub_matches match_link (length value) value in
    let text = collapse is_decoration false (sub_matches match_code (length links) links) in
    strip (collapse is_space false text)

unfoldable pub normalize_line : Text → Text
unfolding collapse
normalize_line value = collapse is_space false (strip value)

-- What follows the first line that is not blank: the stripped line, the lines behind it, the match.
unfoldable pub title_and_body : Text → Text → List Text → Option (Text × Text) → Text × Text
unfolding plain_text normalize_line
title_and_body content line rest none = (normalize_line (plain_text line), strip content)
title_and_body content line rest (some (hashes, raw)) =
    if length hashes == 1
    then (plain_text raw, strip (join_lines (pop_blank rest)))
    else (normalize_line (plain_text line), strip content)

-- The lines from the first one that is not blank.
abbrev pub title_and_body_of : Text → List Text → Text × Text
title_and_body_of content [] = ([], [])
title_and_body_of content (l ∷ ls) = title_and_body content (strip l) ls (match_heading (strip l))

unfoldable pub extract_post_title_and_body : Text → Text × Text
unfolding title_and_body
extract_post_title_and_body content =
    if is_empty content
    then ([], [])
    else title_and_body_of content (pop_blank (splitlines content))

-- `a or b`
abbrev pub or_text : Text → Text → Text
or_text [] s = s
or_text (c ∷ t) s = c ∷ t

unfoldable pub strip_post_leading_title : Text → Text
unfolding extract_post_title_and_body
strip_post_leading_title content = or_text (extract_post_title_and_body content).1 (strip content)

-- The plain text if it fits, and a prefix with an ellipsis otherwise. `max_length` is positive.
unfoldable pub excerpt_of : ℕ → Text → Text
excerpt_of max_length plain =
    if leb (length plain) max_length
    then plain
    else rstrip (take (max_length - 1) plain) ++ codes "…"

-- The title, the body to show and the excerpt.
unfoldable pub extract_post_render_parts : ℕ → Text → Text × Text × Text
unfolding extract_post_title_and_body excerpt_of
extract_post_render_parts max_length content =
    let (title, body) = extract_post_title_and_body content in
    let display_body = or_text body (strip content) in
    (title, display_body, excerpt_of max_length (normalize_line (plain_text display_body)))

unfoldable pub build_post_excerpt : ℕ → Text → Text
build_post_excerpt max_length content = (extract_post_render_parts max_length content).2

-- What is behind a literal at the front of a text.
abbrev pub after_literal : Text → Text → Option Text
after_literal [] s = some s
after_literal (c ∷ l) [] = none
after_literal (c ∷ l) (d ∷ s) = let rest = after_literal l s in if c == d then rest else none

module _ (is_word : ℕ → Bool) where
  -- `[-\w]*`, as long as it goes, and the rest.
  abbrev pub span_slug : Text → Text × Text
  span_slug [] = ([], [])
  span_slug (c ∷ s) =
      let (a, b) = span_slug s in if c == b'-' || is_word c then (c ∷ a, b) else ([], c ∷ s)

  abbrev pub close_slug : Text × Text → Option (Text × Text)
  close_slug ([], s) = none
  close_slug (c ∷ a, []) = none
  close_slug (c ∷ a, d ∷ s) = if d == b'/' then some (c ∷ a, s) else none

  -- WIKI_LINK_RE at a position: the slug, and the text behind the match.
  unfoldable pub match_wiki_link : Text → Option (Text × Text)
  match_wiki_link s = elim (after_literal (codes "/wiki/") s) [
    | none ↦ none
    | some rest ↦ close_slug (span_slug rest)
  ]

  -- `WIKI_LINK_RE.finditer`: the slugs of the matches from the left. Each round takes a character at
  -- least.
  unfoldable pub wiki_links : ℕ → Text → List Text
  unfolding match_wiki_link
  wiki_links zero s = []
  wiki_links (suc fuel) [] = []
  wiki_links (suc fuel) (c ∷ s) = elim (match_wiki_link (c ∷ s)) [
    | none ↦ wiki_links fuel s
    | some (slug, rest) ↦ slug ∷ wiki_links fuel rest
  ]

  -- The loop over the matches; `seen_slugs` has the elements of `ordered_slugs`.
  unfoldable pub first_occurrences : List Text → List Text → List Text
  first_occurrences ordered [] = ordered
  first_occurrences ordered (slug ∷ slugs) =
      first_occurrences (if any_of (text_eq slug) ordered then ordered else ordered ++ slug ∷ [])
        slugs

  unfoldable pub extract_linked_wiki_slugs : Text → List Text
  unfolding wiki_links first_occurrences
  extract_linked_wiki_slugs content = first_occurrences [] (wiki_links (length content) content)
