-- ===== src/Core/CommunityContent/Images/Url.antt =====
-- The address of an image, from the HTML tag to the list of posts.
use Prim.{tt}
use hivewiki_web.Base.{
  ℕ, ◌≡◌, refl, ap, ◌∙◌, Bool, false, some, [], ◌∷◌, ◌++◌, ◌==◌, All, arith, append_nil,
}
use mathlib.Core.List.{append_assoc}
use hivewiki_web.Base.Dict.{insert}
use hivewiki_web.Base.Text.{Text, codes, text_eq, is_space, strip, lstrip, rstrip}
use hivewiki_web.Core.WikiMarkdown.Regex.{cut_at, sub_matches}
use hivewiki_web.Core.CommunityContent.Images.{
  span_url, match_markdown_image, match_html_image, span_name, match_attribute, attributes_onto,
  parse_html_attributes, replace_html_image_with_markdown, normalize_html_images,
  build_post_markdown, extract_first_image_url, word_char,
}

-- A character that an address in Markdown and in a quoted attribute may have.
abbrev pub IsUrlChar : ℕ → Type 0
IsUrlChar c =
    (is_space c ≡ false) × ((c == b')') ≡ false) × ((c == b'"') ≡ false) × ((c == b'>') ≡ false)

-- A character that the text of an image in Markdown and a quoted attribute may have.
abbrev pub IsAltChar : ℕ → Type 0
IsAltChar c = ((c == b']') ≡ false) × ((c == b'"') ≡ false) × ((c == b'>') ≡ false)

cut_at-front :
    (d : ℕ) (a s x y : Text)
    → All (λ c. (c == d) ≡ false) a
    → cut_at d s ≡ some (x, y)
    → cut_at d (a ++ s) ≡ some (a ++ x, y)
unfolding cut_at
cut_at-front d [] s x y h k = k
cut_at-front d (c ∷ a) s x y (n, h) k = rw (n, cut_at-front d a s x y h k) refl

cut_at-append :
    (d : ℕ) (a s : Text) → All (λ c. (c == d) ≡ false) a → cut_at d (a ++ d ∷ s) ≡ some (a, s)
unfolding cut_at
cut_at-append d [] s h = ground arith
cut_at-append d (c ∷ a) s (n, h) = rw (n, cut_at-append d a s h) refl

span_url-append : (u s : Text) → All IsUrlChar u → span_url (u ++ b')' ∷ s) ≡ (u, b')' ∷ s)
unfolding span_url
span_url-append [] s h = refl
span_url-append (c ∷ u) s ((n, m, k, l), h) = rw (span_url-append u s h, n, m) refl

rstrip-url : (u : Text) → All IsUrlChar u → rstrip u ≡ u
unfolding rstrip
rstrip-url [] h = refl
rstrip-url (c ∷ []) ((n, m, k, l), h) = rw n refl
rstrip-url (c ∷ d ∷ u) ((n, m, k, l), h) = rw (rstrip-url (d ∷ u) h) refl

strip-url : (u : Text) → All IsUrlChar u → strip u ≡ u
unfolding strip lstrip
strip-url [] h = refl
strip-url (c ∷ u) ((n, m, k, l), h) = rw n (rstrip-url (c ∷ u) ((n, m, k, l), h))

rstrip-append : (d : ℕ) (s : Text) → is_space d ≡ false → rstrip (s ++ d ∷ []) ≡ s ++ d ∷ []
unfolding rstrip
rstrip-append d [] h = rw h refl
rstrip-append d (c ∷ []) h = rw h refl
rstrip-append d (c ∷ e ∷ s) h = rw (rstrip-append d (e ∷ s) h) refl

-- The tag `<img alt="…" src="…">`, and the image in Markdown.
abbrev pub html_image : Text → Text → Text
html_image alt url = codes "<img alt=\"" ++ (alt ++ (codes "\" src=\"" ++ (url ++ codes "\">")))

abbrev pub markdown_image : Text → Text → Text
markdown_image alt url = codes "![" ++ alt ++ codes "](" ++ url ++ codes ")"

markdown-flat :
    (alt url : Text)
    → markdown_image alt url ≡ codes "![" ++ (alt ++ (codes "](" ++ (url ++ codes ")")))
markdown-flat alt url =
    append_assoc (codes "![" ++ alt ++ codes "](") url (codes ")")
    ∙ append_assoc (codes "![" ++ alt) (codes "](") (url ++ codes ")")

no_quote : (u : Text) → All IsUrlChar u → All (λ c. (c == b'"') ≡ false) u
no_quote [] h = tt
no_quote (c ∷ u) ((n, m, k, l), h) = (k, no_quote u h)

cut_at-end :
    (u : Text) → All IsUrlChar u → cut_at b'>' (u ++ codes "\">") ≡ some (u ++ b'"' ∷ [], [])
unfolding cut_at
cut_at-end [] h = refl
cut_at-end (c ∷ u) ((n, m, k, l), h) = rw (l, cut_at-end u h) refl

alt_apart :
    (d : ℕ) (alt : Text)
    → ((c : ℕ) → IsAltChar c → (c == d) ≡ false)
    → All IsAltChar alt
    → All (λ c. (c == d) ≡ false) alt
alt_apart d [] f h = tt
alt_apart d (c ∷ alt) f (n, h) = (f c n, alt_apart d alt f h)

-- What is behind `<img` up to the end of the tag.
abbrev inner_of : Text → Text → Text
inner_of alt url = codes " alt=\"" ++ (alt ++ (codes "\" src=\"" ++ (url ++ codes "\"")))

cut_at-tag :
    (alt u : Text)
    → All IsAltChar alt
    → All IsUrlChar u
    → cut_at b'>' (alt ++ (codes "\" src=\"" ++ (u ++ codes "\">")))
      ≡ some (alt ++ (codes "\" src=\"" ++ (u ++ codes "\"")), [])
unfolding cut_at
cut_at-tag alt u g h =
    cut_at-front b'>' alt (codes "\" src=\"" ++ (u ++ codes "\">")) _ []
      (alt_apart b'>' alt (λ c n. n.2) g) (rw (cut_at-end u h) refl)

append_end :
    (alt u : Text)
    → inner_of alt u ++ b'>' ∷ []
      ≡ codes " alt=\"" ++ (alt ++ (codes "\" src=\"" ++ (u ++ codes "\">")))
append_end alt u =
    ap (λ (t : Text). codes " alt=\"" ++ t)
      (append_assoc alt (codes "\" src=\"" ++ (u ++ codes "\"")) (b'>' ∷ [])
        ∙ ap (λ (t : Text). alt ++ (codes "\" src=\"" ++ t))
            (append_assoc u (codes "\"") (b'>' ∷ [])))

strip-markdown_image : (alt u : Text) → strip (markdown_image alt u) ≡ markdown_image alt u
unfolding strip lstrip
strip-markdown_image alt u = rstrip-append b')' (codes "![" ++ alt ++ codes "](" ++ u) refl

module _ (is_word : ℕ → Bool) where
  match-html_image :
      (alt u : Text)
      → All IsAltChar alt
      → All IsUrlChar u
      → match_html_image is_word (html_image alt u) ≡ some (html_image alt u, [])
  unfolding match_html_image word_char cut_at
  match-html_image alt u g h =
      rw (cut_at-tag alt u g h) (ap (λ (t : Text). some (codes "<img" ++ t, [])) (append_end alt u))

  module _ (lower unescape : Text → Text) (lower_src : lower (codes "src") ≡ codes "src")
      (lower_alt : lower (codes "alt") ≡ codes "alt") where
    parse-html_image :
        (alt u : Text)
        → All IsAltChar alt
        → All IsUrlChar u
        → unescape alt ≡ alt
        → unescape u ≡ u
        → parse_html_attributes is_word lower unescape (html_image alt u)
          ≡ insert (codes "src") u ((codes "alt", alt) ∷ [])
    unfolding parse_html_attributes attributes_onto match_attribute span_name word_char lstrip
    parse-html_image alt u g h plain_alt plain =
        rw
          (
            parse_html_attributes,
            attributes_onto,
            cut_at-append b'"' alt (codes " src=\"" ++ (u ++ codes "\">"))
                (alt_apart b'"' alt (λ c n. n.1) g),
            cut_at-append b'"' u (b'>' ∷ []) (no_quote u h),
            lower_src,
            lower_alt,
            plain,
            plain_alt,
          )
          refl

    replace-html_image :
        (alt : Text) (c : ℕ) (u : Text)
        → All IsAltChar alt
        → All IsUrlChar (c ∷ u)
        → strip alt ≡ alt
        → unescape alt ≡ alt
        → unescape (c ∷ u) ≡ c ∷ u
        → replace_html_image_with_markdown is_word lower unescape (html_image alt (c ∷ u))
          ≡ markdown_image alt (c ∷ u)
    unfolding replace_html_image_with_markdown text_eq
    replace-html_image alt c u g h trimmed plain_alt plain =
        rw
          (
            replace_html_image_with_markdown,
            parse-html_image alt (c ∷ u) g h plain_alt plain,
            strip-url (c ∷ u) h,
            trimmed,
          )
          refl

    build-html_image :
        (alt : Text) (c : ℕ) (u : Text)
        → All IsAltChar alt
        → All IsUrlChar (c ∷ u)
        → strip alt ≡ alt
        → unescape alt ≡ alt
        → unescape (c ∷ u) ≡ c ∷ u
        → build_post_markdown is_word lower unescape (html_image alt (c ∷ u))
          ≡ some (markdown_image alt (c ∷ u))
    unfolding build_post_markdown normalize_html_images sub_matches
    build-html_image alt c u g h trimmed plain_alt plain =
        rw
          (
            build_post_markdown,
            normalize_html_images,
            sub_matches,
            match-html_image alt (c ∷ u) g h,
            replace-html_image alt c u g h trimmed plain_alt plain,
            append_nil (markdown_image alt (c ∷ u)),
            strip-markdown_image alt (c ∷ u),
          )
          refl

    extract-markdown_image :
        (alt : Text) (c : ℕ) (u : Text)
        → All IsAltChar alt
        → All IsUrlChar (c ∷ u)
        → extract_first_image_url is_word lower unescape (markdown_image alt (c ∷ u)) ≡ c ∷ u
    unfolding extract_first_image_url match_markdown_image cut_at
    extract-markdown_image alt c u g h =
        let flat = codes "![" ++ (alt ++ (codes "](" ++ (c ∷ u ++ codes ")"))) in
        let found : extract_first_image_url is_word lower unescape flat ≡ c ∷ u =
          rw
            (
              extract_first_image_url,
              match_markdown_image,
              cut_at-append b']' alt (codes "(" ++ (c ∷ u ++ codes ")"))
                  (alt_apart b']' alt (λ c n. n.0) g),
              span_url-append (c ∷ u) [] h,
              strip-url (c ∷ u) h,
            )
            refl in
        ap (extract_first_image_url is_word lower unescape) (markdown-flat alt (c ∷ u)) ∙ found

    -- Let `lower` keep `alt` and `src`. Take a body that is one tag `<img alt="…" src="…">`: the text of
    -- `alt` has no closing bracket, quotation mark or `>` and no space at its ends, the address is
    -- not empty and has no space, closing parenthesis, quotation mark or `>`, and `unescape` changes
    -- neither. When the post is saved the tag becomes an image in Markdown with this text, and the
    -- address of that is read back as the first image.
    pub extract_first_image_url-build_post_markdown :
        (alt : Text) (c : ℕ) (u : Text)
        → All IsAltChar alt
        → All IsUrlChar (c ∷ u)
        → strip alt ≡ alt
        → unescape alt ≡ alt
        → unescape (c ∷ u) ≡ c ∷ u
        → (build_post_markdown is_word lower unescape (html_image alt (c ∷ u))
            ≡ some (markdown_image alt (c ∷ u)))
          × (extract_first_image_url is_word lower unescape (markdown_image alt (c ∷ u)) ≡ c ∷ u)
    extract_first_image_url-build_post_markdown alt c u g h trimmed plain_alt plain =
        (build-html_image alt c u g h trimmed plain_alt plain, extract-markdown_image alt c u g h)
