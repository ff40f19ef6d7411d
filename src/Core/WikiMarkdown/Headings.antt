-- ===== src/Core/WikiMarkdown/Headings.antt =====
-- The headings that `build_markdown_context` finds, and the ids that it gives them.
use hivewiki_web.Base.{
  ℕ, ◌≤◌, ◌≡◌, refl, some, List, [], ◌∷◌, ◌++◌, arith, false, Option-cases, inl, inr, length, All,
}
use hivewiki_web.Base.Text.{Text, codes, splitlines, text_eq, text_eq_refl, decimal}
use mathlib.Core.List.{append_assoc}
use hivewiki_web.Base.Dict.{Dict}
use hivewiki_web.Core.WikiMarkdown.{
  base_id, unique_heading_id, heading_entry, context_lines, build_markdown_context,
  annotate_toc_items,
}
use hivewiki_web.Core.WikiMarkdown.Regex.{match_heading}
use hivewiki_web.Core.WikiMarkdown.Toc.{IsHeading, numbered_toc, annotate_toc_items-eq-numbered}

match_heading_level :
    (line : Text) (m : Text × Text)
    → match_heading line ≡ some m
    → (1 ≤ length m.0) × (length m.0 ≤ 6)
unfolding match_heading
match_heading_level line m h = ground arith

text_ne_longer : (s t : Text) (c : ℕ) → text_eq s (s ++ c ∷ t) ≡ false
unfolding text_eq
text_ne_longer [] t c = refl
text_ne_longer (d ∷ s) t c = ground (arith, text_ne_longer s t c)

module _ (slugify : Text → Text) where
  heading_entry-level :
      (m : Text × Text) (seen : Dict ℕ) → (heading_entry slugify m seen).1.level ≡ length m.0
  unfolding heading_entry
  heading_entry-level (hashes, raw) seen = refl

  context_lines-IsHeading :
      (lines : List Text) (seen : Dict ℕ) → All IsHeading (context_lines slugify lines seen).1
  unfolding context_lines
  context_lines-IsHeading [] seen = tt
  context_lines-IsHeading (line ∷ lines) seen = elim (Option-cases (match_heading line)) [
    | inl e ↦ rw (e, context_lines) (context_lines-IsHeading lines seen)
    | inr (m, e) ↦
        let levels = match_heading_level line m e in
        rw (e, context_lines)
          (
            rw (heading_entry-level m seen) levels,
            context_lines-IsHeading lines (heading_entry slugify m seen).2,
          )
  ]

  -- For every text, `annotate_toc_items` on the entries of `build_markdown_context` raises no
  -- IndexError, and numbers them by their siblings.
  pub annotate-build_markdown_context :
      (text : Text)
      → annotate_toc_items (build_markdown_context slugify text).1
        ≡ some (numbered_toc (build_markdown_context slugify text).1)
  unfolding build_markdown_context
  annotate-build_markdown_context [] = annotate_toc_items-eq-numbered [] tt
  annotate-build_markdown_context (c ∷ s) =
      annotate_toc_items-eq-numbered _ (context_lines-IsHeading (splitlines (c ∷ s)) [])

  -- Two headings with one slug, and a third whose slug is that slug with `-2` behind it: the second
  -- and the third get the same id.
  pub unique_heading_id_collides :
      (a b c : Text)
      → base_id slugify b ≡ base_id slugify a
      → base_id slugify c ≡ base_id slugify a ++ codes "-2"
      → let (_, seen₁) = unique_heading_id slugify a [] in
        let (second, seen₂) = unique_heading_id slugify b seen₁ in
        let (third, _) = unique_heading_id slugify c seen₂ in second ≡ third
  unfolding unique_heading_id decimal
  unique_heading_id_collides a b c eb ec =
      let base = base_id slugify a in
      rw (eb, ec, text_eq_refl base, text_ne_longer base (b'2' ∷ []) b'-')
        (append_assoc base (codes "-") (codes "2"))
