-- ===== src/Core/WikiMarkdown/Regex.antt =====
-- The regular expressions of apps/core/wiki_markdown.py, lines 5 to 8, as the functions that they
-- denote. The expressions leave no choice that backtracking could change, but for the lazy group of
-- HEADING_RE, which is the shortest prefix that the rest of the expression accepts.
use hivewiki_web.Base.{
  ℕ, zero, suc, Bool, false, ◌&&◌, ◌||◌, Option, none, some, [], ◌∷◌, ◌++◌, ◌==◌, leb,
  if◌then◌else◌, length,
}
use hivewiki_web.Base.Text.{Text, is_empty, is_space, lstrip, strip}

-- The hashes at the start, and the rest.
unfoldable pub span_hashes : Text → Text × Text
span_hashes [] = ([], [])
span_hashes (c ∷ s) = let (h, r) = span_hashes s in if c == b'#' then (c ∷ h, r) else ([], c ∷ s)

abbrev pub starts_with_space : Text → Bool
starts_with_space [] = false
starts_with_space (c ∷ s) = is_space c

-- `\s+#+\s*$`
unfoldable pub is_closing : Text → Bool
unfolding span_hashes
is_closing s =
    let (h, r) = span_hashes (lstrip s) in
    starts_with_space s && leb 1 (length h) && is_empty (lstrip r)

-- `(.*?)(?:\s+#+\s*)?$`: the lazy group.
unfoldable pub lazy_heading : Text → Text
unfolding is_closing
lazy_heading [] = []
lazy_heading (c ∷ s) = if is_closing (c ∷ s) then [] else c ∷ lazy_heading s

-- HEADING_RE on a line: the hashes and the raw heading.
unfoldable pub match_heading : Text → Option (Text × Text)
unfolding span_hashes lazy_heading
match_heading line =
    let (h, r) = span_hashes line in
    if leb 1 (length h) && leb (length h) 6 && starts_with_space r
    then some (h, lazy_heading (lstrip r))
    else none

-- The text before the first `d`, and the text after it.
unfoldable pub cut_at : ℕ → Text → Option (Text × Text)
cut_at d [] = none
cut_at d (c ∷ s) =
    if c == d
    then some ([], s)
    else elim (cut_at d s) [ none ↦ none | some (a, b) ↦ some (c ∷ a, b) ]

-- A non-empty run without `d` and then `d`: the run, and the text after `d`.
abbrev pub run_to : ℕ → Text → Option (Text × Text)
run_to d s = elim (cut_at d s) [
  | none ↦ none
  | some (a, b) ↦ if is_empty a then none else some (a, b)
]

-- `\([^)]+\)`: the text behind it.
abbrev pub match_target : Text → Option Text
match_target [] = none
match_target (c ∷ s) =
    if c == b'(' then (elim (run_to b')' s) [ none ↦ none | some (a, b) ↦ some b ]) else none

-- `\[([^\]]+)\]\([^)]+\)`: the inner group, and the text behind the match.
abbrev pub match_bracket : Text → Option (Text × Text)
match_bracket [] = none
match_bracket (c ∷ s) =
    if c == b'['
    then (elim (run_to b']' s) [
      | none ↦ none
      | some (a, b) ↦ elim (match_target b) [ none ↦ none | some r ↦ some (a, r) ]
    ])
    else none

-- MARKDOWN_LINK_RE at a position.
unfoldable pub match_link : Text → Option (Text × Text)
unfolding cut_at
match_link [] = none
match_link (c ∷ s) = if c == b'!' then match_bracket s else match_bracket (c ∷ s)

-- `re.sub`: the matches from the left, each replaced by its group. Each round takes a character at
-- least, so as many rounds as there are characters are enough.
unfoldable pub sub_matches : (Text → Option (Text × Text)) → ℕ → Text → Text
sub_matches match zero s = s
sub_matches match (suc fuel) [] = []
sub_matches match (suc fuel) (c ∷ s) = elim (match (c ∷ s)) [
  | none ↦ c ∷ sub_matches match fuel s
  | some (group, rest) ↦ group ++ sub_matches match fuel rest
]

-- INLINE_CODE_RE at a position.
unfoldable pub match_code : Text → Option (Text × Text)
unfolding cut_at
match_code [] = none
match_code (c ∷ s) = if c == b'`' then cut_at b'`' s else none

-- `MARKDOWN_EMPHASIS_RE.sub("", text)`
unfoldable pub drop_emphasis : Text → Text
drop_emphasis [] = []
drop_emphasis (c ∷ s) =
    if c == b'*' || c == b'_' || c == b'~' then drop_emphasis s else c ∷ drop_emphasis s

unfoldable pub plain_heading_text : Text → Text
unfolding sub_matches match_link match_code drop_emphasis
plain_heading_text value =
    let links = sub_matches match_link (length value) value in
    strip (drop_emphasis (sub_matches match_code (length links) links))
