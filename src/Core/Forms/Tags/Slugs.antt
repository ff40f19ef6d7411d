-- ===== src/Core/Forms/Tags/Slugs.antt =====
-- What getting or creating a tag does to the table of tags.
use Prim.{absurd}
use hivewiki_web.Base.{
  ℕ, zero, suc, ◌+◌, ◌≤◌, ◌≡◌, refl, Bool, true, false, some, List, [], ◌∷◌, arith, ◌==◌, ==_refl,
  ◌&&◌, ltb, if◌then◌else◌, length, first_of_rows, first_of_rows-holds, any_of, any_apart, count_of,
  Result, ok, Bool-cases, Option-cases, inl, inr,
}
use hivewiki_web.Base.Text.{Text, text_eq, eq_of_text_eq, is_empty}
use hivewiki_web.Core.Models.{Tag}
use hivewiki_web.Core.Forms.{FormError}
use hivewiki_web.Core.Forms.Tags.{
  slug_for, is_slug, new_tag, tag_named, create_tag, get_or_create_tag,
}

-- The number of tags with a slug, and: no two tags have one slug.
abbrev pub slug_count : Text → List Tag → ℕ
slug_count slug = count_of (λ t. text_eq t.slug slug)

abbrev pub HasUniqueSlugs : List Tag → Type 0
HasUniqueSlugs ts = (slug : Text) → slug_count slug ts ≤ 1

-- What putting a row at its place does to the number of rows that pass a test.
abbrev pub IsPlacing : (Tag → List Tag → List Tag) → Type 0
IsPlacing place =
    (p : Tag → Bool) (t : Tag) (ts : List Tag)
    → count_of p (place t ts) ≡ (if p t then suc (count_of p ts) else count_of p ts)

module _ {A : Type 0} (p : A → Bool) where
  count_of-none : (xs : List A) → any_of p xs ≡ false → count_of p xs ≡ 0
  count_of-none [] h = refl
  count_of-none (x ∷ xs) h = let (apart, h') = any_apart p x xs h in rw apart (count_of-none xs h')

  any_of-count_of : (xs : List A) → 1 ≤ count_of p xs → any_of p xs ≡ true
  any_of-count_of xs h = elim (Bool-cases (any_of p xs)) [
    | inl e ↦ e
    | inr e ↦ let nothing = count_of-none xs e in absurd (omega arith)
  ]

  count_of-any_of : (xs : List A) → any_of p xs ≡ true → 1 ≤ count_of p xs
  count_of-any_of [] h = cc (h)
  count_of-any_of (x ∷ xs) h = elim (Bool-cases (p x)) [
    | inl e ↦ rw e (omega arith)
    | inr e ↦ rw e (count_of-any_of xs (let rest = rw e at h in rest))
  ]

  -- A row of the result of a query is a row of the table.
  any_of-first :
      (q : A → Bool) (xs : List A) (x : A)
      → first_of_rows q xs ≡ some x
      → p x ≡ true
      → any_of p xs ≡ true
  any_of-first q [] x h k = cc (h)
  any_of-first q (y ∷ xs) x h k = elim (Bool-cases (q y)) [
    | inl e ↦
        let both : some y ≡ some x = rw e at h in let same : y ≡ x = cc (both) in rw (same, k) refl
    | inr e ↦ let ih = any_of-first q xs x (let rest = rw e at h in rest) k in ground arith
  ]

-- Other requests remove and change no tag.
abbrev pub IsKeeping : (ℕ → List Tag → List Tag) → Type 0
IsKeeping meanwhile =
    (k : ℕ) (p : Tag → Bool) (ts : List Tag) → any_of p ts ≡ true → any_of p (meanwhile k ts) ≡ true

any_of-place :
    (place : Tag → List Tag → List Tag)
    → IsPlacing place
    → (p : Tag → Bool) (t : Tag) (ts : List Tag) → any_of p ts ≡ true
    → any_of p (place t ts) ≡ true
any_of-place place placing p t ts h =
    let before = count_of-any_of p ts h in
    any_of-count_of p (place t ts) (rw (placing p t ts) (ground arith))

any_of-place_itself :
    (place : Tag → List Tag → List Tag)
    → IsPlacing place
    → (p : Tag → Bool) (t : Tag) (ts : List Tag) → p t ≡ true
    → any_of p (place t ts) ≡ true
any_of-place_itself place placing p t ts h =
    any_of-count_of p (place t ts) (rw (placing p t ts, h) (omega arith))

slug_count-place :
    (place : Tag → List Tag → List Tag)
    → IsPlacing place
    → (t : Tag) (ts : List Tag) → is_slug t.slug ts ≡ false
    → HasUniqueSlugs ts
    → HasUniqueSlugs (place t ts)
slug_count-place place placing t ts new unique slug = elim (Bool-cases (text_eq t.slug slug)) [
  | inl e ↦
      let same = eq_of_text_eq t.slug slug e in
      let zeros : slug_count slug ts ≡ 0 =
        rw (← same) (count_of-none (λ r. text_eq r.slug t.slug) ts new) in
      rw (placing (λ r. text_eq r.slug slug) t ts, e, zeros) (omega arith)
  | inr e ↦ rw (placing (λ r. text_eq r.slug slug) t ts, e) (unique slug)
]

module _ (iexact : Text → Text → Bool) (iexact_refl : (t : Text) → iexact t t ≡ true)
    (place : Tag → List Tag → List Tag) (placing : IsPlacing place) where
  -- A row has the id and the name, but for case.
  abbrev pub is_tag : ℕ → Text → Tag → Bool
  is_tag id name t = t.id == id && iexact t.name name

  -- The tag is one of the rows and has the name but for case, the rows are kept, and no slug is doubled.
  abbrev pub IsTagged : Text → List Tag → Tag → List Tag → Type 0
  IsTagged name before t after =
      (any_of (is_tag t.id name) after ≡ true)
      × ((p : Tag → Bool) → any_of p before ≡ true → any_of p after ≡ true)
      × (HasUniqueSlugs before → HasUniqueSlugs after)

  row_named :
      (name : Text) (ts : List Tag) (t : Tag)
      → tag_named iexact name ts ≡ some t
      → any_of (is_tag t.id name) ts ≡ true
  row_named name ts t h =
      any_of-first (is_tag t.id name) (λ r. iexact r.name name) ts t h
        (rw (==_refl t.id, first_of_rows-holds (λ r. iexact r.name name) ts t h) refl)

  module _ (meanwhile : ℕ → List Tag → List Tag)
      (keeps : (k : ℕ) (ts : List Tag) → HasUniqueSlugs ts → HasUniqueSlugs (meanwhile k ts))
      (keeping : IsKeeping meanwhile) where
    create_tag-IsTagged :
        (now id : ℕ) (name base : Text) (attempts suffix : ℕ) (before after : List Tag) (t : Tag)
        → create_tag iexact place meanwhile now id name base attempts suffix before ≡ ok (t, after)
        → IsTagged name before t after
    unfolding create_tag
    create_tag-IsTagged now id name base zero suffix before after t done = cc (done)
    create_tag-IsTagged now id name base (suc attempts) suffix before after t done =
        let here = meanwhile suffix before in
        let slug = slug_for base suffix in
        elim (Bool-cases (ltb 50 (length slug))) [
          | inl e ↦ let no = rw (create_tag, e) at done in cc (no)
          | inr e ↦ elim (Bool-cases (is_slug slug here)) [
            | inr f ↦
                let new = new_tag now id name slug in
                let both : ◌≡◌ {A = Result FormError (Tag × List Tag)} (ok (new, place new here))
                    (ok (t, after)) =
                  rw (create_tag, e, f) at done in
                let same_tag : new ≡ t = cc (both) in
                let same_rows : place new here ≡ after = cc (both) in
                rw (← same_tag, ← same_rows)
                  (
                    any_of-place_itself place placing (is_tag id name) new here
                        (rw (==_refl id, iexact_refl name) refl),
                    λ p h. any_of-place place placing p new here (keeping suffix p before h),
                    λ h. slug_count-place place placing new here f (keeps suffix before h),
                  )
            | inl f ↦ elim (Option-cases (tag_named iexact name here)) [
              | inr (s, g) ↦
                  let both : ◌≡◌ {A = Result FormError (Tag × List Tag)} (ok (s, here))
                      (ok (t, after)) =
                    rw (create_tag, e, f, g) at done in
                  let same_tag : s ≡ t = cc (both) in
                  let same_rows : here ≡ after = cc (both) in
                  rw (← same_tag, ← same_rows)
                    (row_named name here s g, λ p h. keeping suffix p before h, keeps suffix before)
              | inl g ↦
                  let (named, kept, unique) =
                    create_tag-IsTagged now id name base attempts (suffix + 1) here after t
                      (rw (create_tag, e, f, g) at done) in
                  (
                    named,
                    λ p h. kept p (keeping suffix p before h),
                    λ h. unique (keeps suffix before h),
                  )
            ]
          ]
        ]

    -- Whatever other requests do between the attempts, if they double no slug and remove and change no tag,
    -- the tag that is returned is a row of the table with the name but for case, the rows that were
    -- there are kept, and no slug is doubled by the call.
    pub get_or_create_tag-IsTagged :
        (slugify : Text → Text) (now id : ℕ) (name : Text) (before after : List Tag) (t : Tag)
        → get_or_create_tag iexact place slugify meanwhile now id name before ≡ ok (t, after)
        → IsTagged name before t after
    unfolding get_or_create_tag
    get_or_create_tag-IsTagged slugify now id name before after t done =
        elim (Option-cases (tag_named iexact name before)) [
          | inr (s, g) ↦
              let both : ◌≡◌ {A = Result FormError (Tag × List Tag)} (ok (s, before))
                  (ok (t, after)) =
                rw (get_or_create_tag, g) at done in
              let same_tag : s ≡ t = cc (both) in
              let same_rows : before ≡ after = cc (both) in
              rw (← same_tag, ← same_rows) (row_named name before s g, λ p h. h, λ h. h)
          | inl g ↦ elim (Bool-cases (is_empty (slugify name))) [
            | inl e ↦ let no = rw (get_or_create_tag, g, e) at done in cc (no)
            | inr e ↦
                create_tag-IsTagged now id name (slugify name) 20 1 before after t
                  (let made = rw (get_or_create_tag, g, e) at done in made)
          ]
        ]
