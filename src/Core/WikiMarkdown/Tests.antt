-- ===== src/Core/WikiMarkdown/Tests.antt =====
-- The headings of a small page.
use hivewiki_web.Base.{ℕ, ◌≡◌, refl, some, List, [], ◌∷◌, arith, map}
use hivewiki_web.Base.Text.{Text, codes, text_eq, splitlines, join_lines, strip, decimal}
use hivewiki_web.Core.WikiMarkdown.{
  TocItem, AnnotatedItem, toc_label, base_id, unique_heading_id, build_markdown_context,
  heading_entry, annotate_toc_items, strip_leading_title_heading, strip_matched,
}
use hivewiki_web.Core.WikiMarkdown.Regex.{match_heading, plain_heading_text}
use hivewiki_web.Core.WikiMarkdown.Toc.{numbered_toc, annotate_toc_items-eq-numbered}
use hivewiki_web.Core.WikiMarkdown.Headings.{unique_heading_id_collides}

abbrev item : ℕ → TocItem
item level = record { level = level; text = codes "t"; id = codes "t" }

abbrev outline : List TocItem
outline = item 2 ∷ item 3 ∷ item 3 ∷ item 2 ∷ item 3 ∷ item 5 ∷ []

annotate_toc_items-eq-numbered_example : annotate_toc_items outline ≡ some (numbered_toc outline)
annotate_toc_items-eq-numbered_example = annotate_toc_items-eq-numbered outline (omega arith)

labels :
    map (λ (x : AnnotatedItem). x.label) (numbered_toc outline)
    ≡ codes "1." ∷ codes "a." ∷ codes "b." ∷ codes "2." ∷ codes "a." ∷ codes "A)" ∷ []
unfolding toc_label decimal
labels = refl

-- For text that is its own slug.
abbrev plain : Text → Text
plain t = t

page : build_markdown_context plain (codes "# a\n\n## b ##\ntext") ≡ (
  codes "# a {#a}\n\n## b {#b}\ntext",
  record { level = 1; text = codes "a"; id = codes "a" }
      ∷ record { level = 2; text = codes "b"; id = codes "b" }
      ∷ [],
)
unfolding build_markdown_context heading_entry unique_heading_id splitlines join_lines match_heading
    plain_heading_text strip text_eq
page = refl

unique_heading_id_collides_example :
    let (_, seen₁) = unique_heading_id plain (codes "a") [] in
    let (second, seen₂) = unique_heading_id plain (codes "a") seen₁ in
    let (third, _) = unique_heading_id plain (codes "a-2") seen₂ in second ≡ third
unfolding base_id
unique_heading_id_collides_example =
    unique_heading_id_collides plain (codes "a") (codes "a") (codes "a-2") refl refl

title_stripped :
    strip_leading_title_heading (codes "# **My** page\n\nbody") (codes " My page ") ≡ codes "body"
unfolding strip_leading_title_heading strip_matched splitlines join_lines match_heading
    plain_heading_text strip text_eq
title_stripped = refl
