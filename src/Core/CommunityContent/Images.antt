-- ===== src/Core/CommunityContent/Images.antt =====
-- apps/core/community_content.py: the images of a post. The HTML tags of images become Markdown when the
-- post is saved, and the first image is shown in lists. `is_word` says which characters from 128 on
-- Python's `\w` stands for, `lower` is `str.lower` and `unescape` is `html.unescape`.
pub mod Url
use hivewiki_web.Base.{
  ℕ, zero, suc, Bool, true, false, not, ◌&&◌, ◌||◌, Option, none, some, List, [], ◌∷◌, ◌++◌, ◌==◌,
  leb, ltb, if◌then◌else◌, length,
}
use hivewiki_web.Base.Text.{Text, codes, is_empty, is_space, lstrip, strip}
use hivewiki_web.Base.Dict.{Dict, insert, lookup_or}
use hivewiki_web.Core.WikiMarkdown.Regex.{cut_at, starts_with_space, sub_matches}

-- A letter in both cases; with IGNORECASE an `i` also matches the two Turkish ones.
abbrev pub is_i : ℕ → Bool
is_i c = c == b'i' || c == b'I' || c == 0x130 || c == 0x131

abbrev pub is_m : ℕ → Bool
is_m c = c == b'm' || c == b'M'

abbrev pub is_g : ℕ → Bool
is_g c = c == b'g' || c == b'G'

-- `re.search`: the first position, from the left, at which the expression matches.
abbrev pub search_match : {A : Type 0} → (Text → Option A) → Text → Option A
search_match match [] = none
search_match match (c ∷ s) = elim (match (c ∷ s)) [ none ↦ search_match match s | some a ↦ some a ]

-- `[^)\s]*`, as long as it goes, and the rest.
unfoldable pub span_url : Text → Text × Text
span_url [] = ([], [])
span_url (c ∷ s) =
    let (a, b) = span_url s in if c == b')' || is_space c then ([], c ∷ s) else (c ∷ a, b)

abbrev pub starts_with : ℕ → Text → Bool
starts_with d [] = false
starts_with d (c ∷ s) = c == d

-- What is behind a character at the front.
abbrev pub behind : ℕ → Text → Option Text
behind d [] = none
behind d (c ∷ s) = if c == d then some s else none

-- `\s+"[^"]*"\)`
abbrev pub is_titled_end : Text → Bool
is_titled_end s = starts_with_space s && (elim (behind b'"' (lstrip s)) [
  | none ↦ false
  | some title ↦ elim (cut_at b'"' title) [ none ↦ false | some (a, b) ↦ starts_with b')' b ]
])

abbrev pub close_image : Text × Text → Option Text
close_image (url, rest) =
    if not (is_empty url) && (starts_with b')' rest || is_titled_end rest) then some url else none

-- MARKDOWN_IMAGE_RE at a position: its group.
unfoldable pub match_markdown_image : Text → Option Text
unfolding cut_at span_url
match_markdown_image [] = none
match_markdown_image (c ∷ []) = none
match_markdown_image (c ∷ d ∷ s) =
    if c == b'!' && d == b'['
    then (elim (cut_at b']' s) [
      | none ↦ none
      | some (alt, rest) ↦ elim (behind b'(' rest) [
        | none ↦ none
        | some r ↦ close_image (span_url r)
      ]
    ])
    else none

module _ (is_word : ℕ → Bool) where
  abbrev pub is_ascii_word : ℕ → Bool
  is_ascii_word c =
      leb b'a' c && leb c b'z' || leb b'A' c && leb c b'Z' || leb b'0' c && leb c b'9' || c == b'_'

  unfoldable pub word_char : ℕ → Bool
  word_char c = if ltb c 128 then is_ascii_word c else is_word c

  abbrev pub starts_with_word : Text → Bool
  starts_with_word [] = false
  starts_with_word (c ∷ s) = word_char c

  -- HTML_IMAGE_RE at a position: the whole match, and the text behind it.
  unfoldable pub match_html_image : Text → Option (Text × Text)
  unfolding word_char cut_at
  match_html_image (a ∷ i ∷ m ∷ g ∷ s) =
      if a == b'<' && is_i i && is_m m && is_g g && not (starts_with_word s)
      then (elim (cut_at b'>' s) [
        | none ↦ none
        | some (inner, rest) ↦ some (a ∷ i ∷ m ∷ g ∷ inner ++ b'>' ∷ [], rest)
      ])
      else none
  match_html_image _ = none

  -- `[\w:-]*`, as long as it goes, and the rest.
  unfoldable pub span_name : Text → Text × Text
  unfolding word_char
  span_name [] = ([], [])
  span_name (c ∷ s) =
      let (a, b) = span_name s in
      if word_char c || c == b':' || c == b'-' then (c ∷ a, b) else ([], c ∷ s)

  -- `\s*=\s*"[^"]*"`: the value, and the text behind it.
  abbrev pub match_value : Text → Option (Text × Text)
  match_value s = elim (behind b'=' (lstrip s)) [
    | none ↦ none
    | some r ↦ elim (behind b'"' (lstrip r)) [ none ↦ none | some v ↦ cut_at b'"' v ]
  ]

  -- HTML_ATTR_RE at a position: the name, the value, and the text behind the match.
  unfoldable pub match_attribute : Text → Option (Text × Text × Text)
  unfolding span_name cut_at
  match_attribute s =
      let (name, r) = span_name s in
      if is_empty name
      then none
      else (elim (match_value r) [ none ↦ none | some (value, rest) ↦ some (name, value, rest) ])

  module _ (lower unescape : Text → Text) where
    -- The dict is filled from the left, so the last value of a name stands. Each round takes a
    -- character at least.
    unfoldable pub attributes_onto : ℕ → Dict Text → Text → Dict Text
    unfolding match_attribute
    attributes_onto zero d s = d
    attributes_onto (suc fuel) d [] = d
    attributes_onto (suc fuel) d (c ∷ s) = elim (match_attribute (c ∷ s)) [
      | none ↦ attributes_onto fuel d s
      | some (name, value, rest) ↦
          attributes_onto fuel (insert (lower name) (unescape value) d) rest
    ]

    unfoldable pub parse_html_attributes : Text → Dict Text
    unfolding attributes_onto
    parse_html_attributes tag = attributes_onto (length tag) [] tag

    unfoldable pub replace_html_image_with_markdown : Text → Text
    unfolding parse_html_attributes
    replace_html_image_with_markdown tag =
        let attributes = parse_html_attributes tag in
        let src = strip (lookup_or (codes "src") [] attributes) in
        let alt = strip (lookup_or (codes "alt") [] attributes) in
        if is_empty src then [] else codes "![" ++ alt ++ codes "](" ++ src ++ codes ")"

    abbrev pub replaced_image : Text → Option (Text × Text)
    replaced_image s = elim (match_html_image s) [
      | none ↦ none
      | some (tag, rest) ↦ some (replace_html_image_with_markdown tag, rest)
    ]

    unfoldable pub normalize_html_images : Text → Text
    unfolding match_html_image replace_html_image_with_markdown sub_matches
    normalize_html_images value = sub_matches replaced_image (length value) value

    -- `none` is the ValueError.
    unfoldable pub build_post_markdown : Text → Option Text
    unfolding normalize_html_images
    build_post_markdown body_markdown =
        let cleaned_body = strip (normalize_html_images body_markdown) in
        if is_empty cleaned_body then none else some cleaned_body

    abbrev pub first_html_source : Option (Text × Text) → Text
    first_html_source none = []
    first_html_source (some (tag, rest)) =
        strip (lookup_or (codes "src") [] (parse_html_attributes tag))

    unfoldable pub extract_first_image_url : Text → Text
    unfolding match_markdown_image match_html_image parse_html_attributes
    extract_first_image_url content_markdown =
        elim (search_match match_markdown_image content_markdown) [
          | some url ↦ strip url
          | none ↦ first_html_source (search_match match_html_image content_markdown)
        ]
