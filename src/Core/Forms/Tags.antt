-- ===== src/Core/Forms/Tags.antt =====
-- The tags that the forms make: TagForm.clean_slug and PostForm._get_or_create_tag. `slugify` is Django's,
-- with `allow_unicode=True`, and `iexact` is the database's comparison without case. `meanwhile`
-- says what other requests, which run at the same time, have made of the table before each attempt. The
-- table is in the order of the names, by which queries are sorted; `place` puts a row at its place.
pub mod Slugs
pub mod Attempts
use hivewiki_web.Base.{
  ℕ, zero, suc, ◌+◌, Bool, false, not, ◌&&◌, Option, none, some, List, [], ◌∷◌, ◌++◌, ◌==◌, ltb,
  if◌then◌else◌, length, first_of_rows, any_of, Result, ok, err, raise_if, ◌>>=◌, ◌>>◌,
}
use hivewiki_web.Base.Text.{Text, text_eq, is_empty, strip, decimal}
use hivewiki_web.Core.Models.{Tag, user}
use hivewiki_web.Core.Forms.{FormError, no_slug, slug_conflicts, value_too_long, slug_in_use}

-- The slug of an attempt.
unfoldable pub slug_for : Text → ℕ → Text
slug_for base_slug suffix = if suffix == 1 then base_slug else base_slug ++ b'-' ∷ decimal suffix

-- The unique constraint of the column.
abbrev pub is_slug : Text → List Tag → Bool
is_slug slug tags = any_of (λ t. text_eq t.slug slug) tags

abbrev pub new_tag : ℕ → ℕ → Text → Text → Tag
new_tag now id name slug = record {
  id = id;
  name = name;
  slug = slug;
  tag_type = user;
  created_at = now;
}

abbrev pub name_or_empty : Option Text → Text
name_or_empty none = []
name_or_empty (some name) = name

-- `qs.exclude(pk=self.instance.pk)`
abbrev pub is_row : Option ℕ → Tag → Bool
is_row none t = false
is_row (some id) t = t.id == id

-- `Tag.objects.filter(name__iexact=name).first()`
abbrev pub tag_named : (Text → Text → Bool) → Text → List Tag → Option Tag
tag_named iexact name = first_of_rows (λ t. iexact t.name name)

module _ (iexact : Text → Text → Bool) (place : Tag → List Tag → List Tag) where
  -- The attempts that are left; a slug that does not fit the column is no IntegrityError, so it is not
  -- caught. `id` is the primary key of the new row.
  unfoldable pub create_tag :
      (ℕ → List Tag → List Tag)
      → ℕ
      → ℕ
      → Text
      → Text
      → ℕ
      → ℕ
      → List Tag
      → Result FormError (Tag × List Tag)
  create_tag meanwhile now id name base_slug zero suffix tags = err slug_conflicts
  create_tag meanwhile now id name base_slug (suc attempts) suffix tags =
      let here = meanwhile suffix tags in
      let slug = slug_for base_slug suffix in
      let rest = create_tag meanwhile now id name base_slug attempts (suffix + 1) here in
      if ltb 50 (length slug)
      then err value_too_long
      else (if not (is_slug slug here)
          then ok (new_tag now id name slug, place (new_tag now id name slug) here)
          else (elim (tag_named iexact name here) [ none ↦ rest | some t ↦ ok (t, here) ]))

  module _ (slugify : Text → Text) where
    unfoldable pub get_or_create_tag :
        (ℕ → List Tag → List Tag) → ℕ → ℕ → Text → List Tag → Result FormError (Tag × List Tag)
    unfolding create_tag slug_for
    get_or_create_tag meanwhile now id name tags = elim (tag_named iexact name tags) [
      | some t ↦ ok (t, tags)
      | none ↦
          if is_empty (slugify name)
          then err no_slug
          else create_tag meanwhile now id name (slugify name) 20 1 tags
    ]

    -- `id` is the primary key of the tag that is edited, if there is one; `name` is `none` where the field
    -- of the name was refused.
    unfoldable pub clean_slug : Option ℕ → Option Text → Text → List Tag → Result FormError Text
    clean_slug id name raw tags = do
      let raw_slug = if is_empty (strip raw) then name_or_empty name else strip raw
      raise_if (is_empty (slugify raw_slug)) no_slug
      raise_if (any_of (λ t. iexact t.slug (slugify raw_slug) && not (is_row id t)) tags)
          slug_in_use
      ok (slugify raw_slug)
