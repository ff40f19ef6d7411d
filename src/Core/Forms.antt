-- ===== src/Core/Forms.antt =====
-- apps/core/forms.py: what the forms of posts, comments, tags and sources accept, and what they make of
-- it. `slugify` is Django's, with `allow_unicode=True`, and `casefold` is `str.casefold`.
pub mod TagNames
pub mod Tags
pub mod Save
mod Tests
use hivewiki_web.Base.{
  ℕ, Bool, true, false, not, ◌&&◌, ◌||◌, Option, none, some, List, [], ◌∷◌, ◌++◌, ◌==◌, ltb,
  if◌then◌else◌, length, take, any_of, Result, ok, err, raise_if, ◌>>=◌, ◌>>◌,
}
use hivewiki_web.Base.Text.{Text, text_eq, is_empty, strip, onto_line}
use hivewiki_web.Accounts.Notifications.Body.{normalize_words}

pub data FormError : Type 0 where
  body_required tag_without_letters too_many_tags too_many_documents : FormError
  no_slug slug_conflicts value_too_long body_without_content : FormError
  content_required slug_in_use interval_too_short : FormError

-- `str.split(sep)` of one character.
unfoldable pub split_on : ℕ → Text → List Text
split_on sep [] = [] ∷ []
split_on sep (c ∷ s) = let rest = split_on sep s in if c == sep then [] ∷ rest else onto_line c rest

unfoldable pub clean_body_markdown : Text → Result FormError Text
clean_body_markdown body_markdown = do
  raise_if (is_empty (strip body_markdown)) body_required
  ok (strip body_markdown)

unfoldable pub clean_content : Text → Result FormError Text
clean_content content = do raise_if (is_empty (strip content)) content_required; ok (strip content)

unfoldable pub clean_wiki_documents : List ℕ → Result FormError (List ℕ)
clean_wiki_documents wiki_documents = do
  raise_if (ltb 10 (length wiki_documents)) too_many_documents
  ok wiki_documents

unfoldable pub clean_poll_interval_minutes : ℕ → Result FormError ℕ
clean_poll_interval_minutes poll_interval_minutes = do
  raise_if (ltb poll_interval_minutes 1) interval_too_short
  ok poll_interval_minutes

-- `" ".join(item.strip().split())`
abbrev pub cleaned_name : Text → Text
cleaned_name item = normalize_words (strip item)

module _ (slugify casefold : Text → Text) where
  -- The loop over the items, with the set `seen_names` and the list `tag_names`.
  unfoldable pub clean_items : List Text → List Text → List Text → Result FormError (List Text)
  clean_items [] seen_names tag_names = ok tag_names
  clean_items (item ∷ items) seen_names tag_names =
      let name = cleaned_name item in
      let skip = is_empty name || any_of (text_eq (casefold name)) seen_names in
      let rest =
        clean_items items (if skip then seen_names else casefold name ∷ seen_names)
          (if skip then tag_names else tag_names ++ take 50 name ∷ []) in
      if not (is_empty name) && is_empty (slugify name) then err tag_without_letters else rest

  unfoldable pub clean_tag_names : Text → Result FormError (List Text)
  unfolding split_on clean_items
  clean_tag_names raw_value = do
    tag_names ← clean_items (split_on b',' raw_value) [] []
    raise_if (ltb 5 (length tag_names)) too_many_tags
    ok tag_names
