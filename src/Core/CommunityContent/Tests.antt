-- ===== src/Core/CommunityContent/Tests.antt =====
-- The parts of posts, on short contents; a word character is a small letter.
use Prim.{tt}
use hivewiki_web.Core.CommunityContent.Images.{
  build_post_markdown, extract_first_image_url, normalize_html_images, match_html_image, word_char,
  replace_html_image_with_markdown, parse_html_attributes, attributes_onto, match_attribute,
  span_name, match_markdown_image, span_url,
}
use hivewiki_web.Core.CommunityContent.Images.Url.{
  html_image, markdown_image, extract_first_image_url-build_post_markdown,
}
use hivewiki_web.Base.{ℕ, none, some, ◌≡◌, refl, Bool, ◌&&◌, [], ◌∷◌, leb}
use hivewiki_web.Base.Text.{
  Text, codes, is_space, text_eq, lstrip, rstrip, strip, splitlines, join_lines,
}
use hivewiki_web.Core.WikiMarkdown.{pop_blank}
use hivewiki_web.Core.WikiMarkdown.Regex.{
  cut_at, match_heading, match_link, match_code, sub_matches,
}
use hivewiki_web.Core.CommunityContent.{
  build_post_excerpt, extract_post_render_parts, extract_linked_wiki_slugs, wiki_links,
  extract_post_title_and_body, plain_text,
}

abbrev small_letter : ℕ → Bool
small_letter c = leb b'a' c && leb c b'z'

abbrev post : Text
post = codes "# A [b](/wiki/b/)\n\n*c* /wiki/d/ /wiki/b/\n\td"

slugs_run : extract_linked_wiki_slugs small_letter post ≡ codes "b" ∷ codes "d" ∷ []
unfolding extract_linked_wiki_slugs wiki_links text_eq
slugs_run = refl

parts_run : extract_post_title_and_body post ≡ (codes "A b", codes "*c* /wiki/d/ /wiki/b/\n\td")
unfolding extract_post_title_and_body plain_text pop_blank splitlines strip match_heading
    sub_matches join_lines match_link match_code
parts_run = refl

excerpt_run : build_post_excerpt 8 post ≡ codes "c /wiki…"
unfolding build_post_excerpt extract_post_render_parts strip sub_matches pop_blank splitlines
    match_heading join_lines match_link match_code
excerpt_run = refl

abbrev as_is : Text → Text
as_is t = t

extract_first_image_url-build_post_markdown_example :
    (build_post_markdown small_letter as_is as_is (html_image (codes "a b") (codes "/a.p"))
      ≡ some (markdown_image (codes "a b") (codes "/a.p")))
    × (extract_first_image_url small_letter as_is as_is
          (markdown_image (codes "a b") (codes "/a.p"))
        ≡ codes "/a.p")
unfolding is_space strip lstrip rstrip
extract_first_image_url-build_post_markdown_example =
    extract_first_image_url-build_post_markdown small_letter as_is as_is refl refl (codes "a b")
      b'/' (codes "a.p") ((refl, refl, refl), ((refl, refl, refl), ((refl, refl, refl), tt)))
      (
        (refl, refl, refl, refl),
        ((refl, refl, refl, refl), ((refl, refl, refl, refl), ((refl, refl, refl, refl), tt))),
      )
      refl refl refl

-- A body that is an image without an address passes the form, and the build fails.
no_source_run : build_post_markdown small_letter as_is as_is (codes "<img>") ≡ none
unfolding build_post_markdown normalize_html_images sub_matches match_html_image word_char cut_at
    replace_html_image_with_markdown parse_html_attributes attributes_onto match_attribute span_name
    lstrip strip rstrip
no_source_run = refl

-- A closing bracket in the text of an image ends it early, so its address is not read back.
bracket_run :
    (build_post_markdown small_letter as_is as_is (codes "<img alt=\"a]b\" src=\"/x\">")
      ≡ some (codes "![a]b](/x)"))
    × (extract_first_image_url small_letter as_is as_is (codes "![a]b](/x)") ≡ [])
unfolding build_post_markdown extract_first_image_url match_markdown_image span_url
    normalize_html_images sub_matches match_html_image word_char cut_at
    replace_html_image_with_markdown parse_html_attributes attributes_onto match_attribute span_name
    text_eq lstrip strip rstrip
bracket_run = (refl, refl)
