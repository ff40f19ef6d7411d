-- ===== src/Core/Forms/Tags/Attempts.antt =====
-- Twenty attempts are enough unless twenty slugs of the kind are in use.
use hivewiki_web.Base.{
  ℕ, zero, suc, ◌+◌, ◌≤◌, ◌<◌, ◌≡◌, ◌⊎◌, refl, sym, ap, ◌∙◌, Bool, true, false, none, List, [], ◌∷◌,
  ◌++◌, arith, ◌==◌, if◌then◌else◌, length, take, append_cancel, append_nil, length-append, le→ltb,
  any_of, count_of, ok, Bool-cases, Option-cases, inl, inr,
}
use hivewiki_web.Base.Pigeonhole.{pigeonhole}
use hivewiki_web.Base.Text.{
  Text, text_eq, text_eq_refl, text_eq_join, eq_of_text_eq, decimal, eq_of_decimal,
  length-decimal-le, is_empty,
}
use hivewiki_web.Core.Models.{Tag}
use hivewiki_web.Core.Forms.Tags.{
  slug_for, is_slug, new_tag, tag_named, create_tag, get_or_create_tag,
}

-- A slug that begins with another one.
abbrev pub is_under : Text → Text → Bool
is_under base slug = text_eq (take (length base) slug) base

slugs_under : Text → List Tag → List Text
slugs_under base [] = []
slugs_under base (t ∷ ts) =
    let rest = slugs_under base ts in if is_under base t.slug then t.slug ∷ rest else rest

length-slugs_under :
    (base : Text) (ts : List Tag)
    → length (slugs_under base ts) ≡ count_of (λ t. is_under base t.slug) ts
unfolding slugs_under
length-slugs_under base [] = refl
length-slugs_under base (t ∷ ts) =
    let ih = length-slugs_under base ts in
    elim (Bool-cases (is_under base t.slug)) [ inl e ↦ rw (e, ih) refl | inr e ↦ rw (e, ih) refl ]

any_of-slugs_under :
    (base slug : Text) (ts : List Tag)
    → is_under base slug ≡ true
    → is_slug slug ts ≡ true
    → any_of (text_eq slug) (slugs_under base ts) ≡ true
unfolding slugs_under
any_of-slugs_under base slug [] u h = cc (h)
any_of-slugs_under base slug (t ∷ ts) u h = elim (Bool-cases (text_eq t.slug slug)) [
  | inl e ↦
      let same = eq_of_text_eq t.slug slug e in rw (slugs_under, same, u, text_eq_refl slug) refl
  | inr e ↦
      let ih = any_of-slugs_under base slug ts u (let rest = rw e at h in rest) in
      elim (Bool-cases (is_under base t.slug)) [
        | inl f ↦ rw (slugs_under, f) (ground (arith, ih))
        | inr f ↦ rw (slugs_under, f) ih
      ]
]

take-append : (s t : Text) → take (length s) (s ++ t) ≡ s
take-append [] t = refl
take-append (c ∷ s) t = ap (λ (r : Text). c ∷ r) (take-append s t)

is_under-slug_for : (base : Text) (k : ℕ) → is_under base (slug_for base k) ≡ true
unfolding slug_for
is_under-slug_for base k = elim (Bool-cases (k == 1)) [
  | inl e ↦
      rw (slug_for, e, ap (take (length base)) (sym (append_nil base)), take-append base [])
        (text_eq_refl base)
  | inr e ↦ rw (slug_for, e, take-append base (b'-' ∷ decimal k)) (text_eq_refl base)
]

slug_for-injective : (base : Text) (i j : ℕ) → slug_for base i ≡ slug_for base j → i ≡ j
unfolding slug_for
slug_for-injective base i j h = elim (Bool-cases (i == 1)) [
  | inl e ↦ elim (Bool-cases (j == 1)) [
    | inl f ↦ ground arith
    | inr f ↦
        let same = rw (slug_for, e, f) at h in
        let nothing = append_cancel base [] (b'-' ∷ decimal j) (append_nil base ∙ same) in
        cc (nothing)
  ]
  | inr e ↦ elim (Bool-cases (j == 1)) [
    | inl f ↦
        let same = rw (slug_for, e, f) at h in
        let nothing = append_cancel base [] (b'-' ∷ decimal i) (append_nil base ∙ sym same) in
        cc (nothing)
    | inr f ↦
        let same = rw (slug_for, e, f) at h in
        let digits = append_cancel base (b'-' ∷ decimal i) (b'-' ∷ decimal j) same in
        eq_of_decimal i j (cc (digits))
  ]
]

length-slug_for : (base : Text) (k : ℕ) → length base ≤ 47 → k ≤ 20 → length (slug_for base k) ≤ 50
unfolding slug_for
length-slug_for base k fits small = elim (Bool-cases (k == 1)) [
  | inl e ↦ rw (slug_for, e) (omega arith)
  | inr e ↦
      let digits = length-decimal-le k (omega arith) in
      rw (slug_for, e, length-append base (b'-' ∷ decimal k)) (omega arith)
]

taken_from :
    (base : Text) (ts : List Tag) (attempts suffix : ℕ)
    → is_slug (slug_for base suffix) ts ≡ true
    → ((i : ℕ) → i < attempts → is_slug (slug_for base (suffix + 1 + i)) ts ≡ true)
    → (i : ℕ) → i < suc attempts
    → is_slug (slug_for base (suffix + i)) ts ≡ true
taken_from base ts attempts suffix first rest zero lt =
    let same : suffix + 0 ≡ suffix = omega arith in rw same first
taken_from base ts attempts suffix first rest (suc i) lt =
    let same : suffix + suc i ≡ suffix + 1 + i = omega arith in rw same (rest i (omega arith))

-- Nobody else writes to the table.
abbrev pub alone : ℕ → List Tag → List Tag
alone k ts = ts

module _ (iexact : Text → Text → Bool) (place : Tag → List Tag → List Tag) where
  -- Either an attempt succeeds, or the slug of each attempt is in use.
  create_tag-taken :
      (now id : ℕ) (name base : Text) (ts : List Tag) (attempts suffix : ℕ)
      → length base ≤ 47
      → suffix + attempts ≤ 21
      → tag_named iexact name ts ≡ none
      → ((t : Tag) × (after : List Tag) × (create_tag iexact place alone now id name base attempts
              suffix ts
            ≡ ok (t, after)))
        ⊎ ((i : ℕ) → i < attempts → is_slug (slug_for base (suffix + i)) ts ≡ true)
  unfolding create_tag
  create_tag-taken now id name base ts zero suffix fits small unnamed =
      inr (λ i lt. absurd (omega arith))
  create_tag-taken now id name base ts (suc attempts) suffix fits small unnamed =
      let short = length-slug_for base suffix fits (omega arith) in
      let fits_column = le→ltb 50 (length (slug_for base suffix)) short in
      elim (Bool-cases (is_slug (slug_for base suffix) ts)) [
        | inr e ↦
            let new = new_tag now id name (slug_for base suffix) in
            inl (new, place new ts, rw (create_tag, fits_column, e) refl)
        | inl e ↦
            elim (create_tag-taken now id name base ts attempts (suffix + 1) fits (omega arith)
              unnamed) [
                | inl (t, after, made) ↦
                    inl (t, after, rw (create_tag, fits_column, e, unnamed) made)
                | inr taken ↦ inr (taken_from base ts attempts suffix e taken)
              ]
      ]

  -- Let the slug of the name be not empty and at most 47 characters long, and let fewer than twenty tags have
  -- a slug that begins with it. If nobody else writes to the table, the call returns a tag.
  pub get_or_create_tag_total :
      (slugify : Text → Text) (now id : ℕ) (name : Text) (ts : List Tag)
      → is_empty (slugify name) ≡ false
      → length (slugify name) ≤ 47
      → count_of (λ t. is_under (slugify name) t.slug) ts < 20
      → (t : Tag) × (after : List Tag) × (get_or_create_tag iexact place slugify alone now id name
            ts
          ≡ ok (t, after))
  unfolding get_or_create_tag
  get_or_create_tag_total slugify now id name ts slugged fits few =
      elim (Option-cases (tag_named iexact name ts)) [
        | inr (t, e) ↦ (t, ts, rw (get_or_create_tag, e) refl)
        | inl e ↦
            let base = slugify name in
            elim (create_tag-taken now id name base ts 20 1 fits (omega arith) e) [
              | inl (t, after, made) ↦ (t, after, rw (get_or_create_tag, e, slugged) made)
              | inr taken ↦
                  let too_many =
                    pigeonhole text_eq text_eq_join 20 (λ i. slug_for base (1 + i))
                      (slugs_under base ts)
                      (λ i lt.
                        any_of-slugs_under base (slug_for base (1 + i)) ts
                          (is_under-slug_for base (1 + i)) (taken i lt))
                      (λ i j li lj same.
                        let suffixes =
                          slug_for-injective base (1 + i) (1 + j)
                            (eq_of_text_eq (slug_for base (1 + i)) (slug_for base (1 + j)) same) in
                        omega arith) in
                  absurd (omega (arith, length-slugs_under base ts))
            ]
      ]
