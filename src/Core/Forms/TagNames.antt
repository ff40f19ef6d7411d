-- ===== src/Core/Forms/TagNames.antt =====
-- PostForm.clean_tag_names: what the loop over the items amounts to.
use hivewiki_web.Base.{
  ◌≡◌, refl, sym, ap, Bool, true, not, ◌&&◌, List, [], ◌∷◌, ◌++◌, map, ltb, if◌then◌else◌, keep,
  length, append_nil, take, any_of, arith, ok, err, Bool-cases, inl, inr,
}
use hivewiki_web.Base.Text.{Text, text_eq, eq_of_text_eq, is_empty}
use hivewiki_web.Core.Forms.{
  tag_without_letters, too_many_tags, split_on, cleaned_name, clean_items, clean_tag_names,
}

keep-keep :
    {A : Type 0} (p q r : A → Bool) (xs : List A)
    → ((x : A) → r x ≡ q x && p x)
    → keep p (keep q xs) ≡ keep r xs
keep-keep p q r [] h = refl
keep-keep p q r (x ∷ xs) h = ground (arith, h x, keep-keep p q r xs h)

keep-all : {A : Type 0} (p : A → Bool) (xs : List A) → ((x : A) → p x ≡ true) → keep p xs ≡ xs
keep-all p [] h = refl
keep-all p (x ∷ xs) h = ground (arith, h x, keep-all p xs h)

add_last : (a : List Text) (x : Text) (b : List Text) → (a ++ x ∷ []) ++ b ≡ a ++ x ∷ b
add_last [] x b = refl
add_last (y ∷ a) x b = ap (λ (t : List Text). y ∷ t) (add_last a x b)

-- The names that are not empty, in the order of the items.
unfoldable pub names_of : List Text → List Text
names_of [] = []
names_of (item ∷ items) =
    let rest = names_of items in
    if is_empty (cleaned_name item) then rest else cleaned_name item ∷ rest

module _ (slugify casefold : Text → Text) where
  abbrev pub same_name : Text → Text → Bool
  same_name a b = text_eq (casefold a) (casefold b)

  -- The first of each group of names that differ in case only.
  unfoldable pub first_names : List Text → List Text
  first_names [] = []
  first_names (n ∷ ns) = n ∷ keep (λ m. not (same_name m n)) (first_names ns)

  abbrev unseen : List Text → Text → Bool
  unseen seen m = not (any_of (text_eq (casefold m)) seen)

  seen_apart :
      (seen : List Text) (n m : Text)
      → any_of (text_eq (casefold n)) seen ≡ true
      → unseen seen m ≡ not (same_name m n) && unseen seen m
  seen_apart seen n m h = elim (Bool-cases (same_name m n)) [
    | inl e ↦
        let there : any_of (text_eq (casefold m)) seen ≡ true =
          rw (eq_of_text_eq (casefold m) (casefold n) e) h in
        rw (e, there) refl
    | inr e ↦ rw e refl
  ]

  new_apart :
      (seen : List Text) (n m : Text)
      → unseen (casefold n ∷ seen) m ≡ not (same_name m n) && unseen seen m
  new_apart seen n m = elim (Bool-cases (same_name m n)) [ inl e ↦ rw e refl | inr e ↦ rw e refl ]

  clean_items-eq :
      (items seen acc : List Text)
      → clean_items slugify casefold items seen acc ≡ (
          if any_of (λ n. is_empty (slugify n)) (names_of items)
          then err tag_without_letters
          else ok (acc ++ map (take 50) (keep (unseen seen) (first_names (names_of items)))))
  unfolding clean_items names_of first_names
  clean_items-eq [] seen acc = ap ok (sym (append_nil acc))
  clean_items-eq (item ∷ items) seen acc = elim (Bool-cases (is_empty (cleaned_name item))) [
    | inl e ↦ rw (clean_items, e) (clean_items-eq items seen acc)
    | inr e ↦ elim (Bool-cases (is_empty (slugify (cleaned_name item)))) [
      | inl f ↦ rw (clean_items, e, f) refl
      | inr f ↦ elim (Bool-cases (any_of (text_eq (casefold (cleaned_name item))) seen)) [
        | inl g ↦
            rw
              (
                clean_items,
                e,
                f,
                g,
                keep-keep (unseen seen) (λ m. not (same_name m (cleaned_name item))) (unseen seen)
                    (first_names (names_of items)) (λ m. seen_apart seen (cleaned_name item) m g),
              )
              (clean_items-eq items seen acc)
        | inr g ↦
            rw
              (
                clean_items,
                e,
                f,
                g,
                keep-keep (unseen seen) (λ m. not (same_name m (cleaned_name item)))
                    (unseen (casefold (cleaned_name item) ∷ seen)) (first_names (names_of items))
                    (λ m. new_apart seen (cleaned_name item) m),
                clean_items-eq items (casefold (cleaned_name item) ∷ seen)
                    (acc ++ take 50 (cleaned_name item) ∷ []),
                add_last acc (take 50 (cleaned_name item)),
              )
              refl
      ]
    ]
  ]

  -- The tag names are the parts between the commas without space around them and with one space between
  -- their words; the empty ones and those that repeat an earlier one but for case are left out, and
  -- the rest is cut to 50 characters. The form is refused if a part that is not empty has an empty slug,
  -- and else if more than five are left.
  pub clean_tag_names-eq-first_names :
      (raw : Text)
      → clean_tag_names slugify casefold raw ≡ (
          let names = names_of (split_on b',' raw) in
          let picked = map (take 50) (first_names names) in
          if any_of (λ n. is_empty (slugify n)) names
          then err tag_without_letters
          else (if ltb 5 (length picked) then err too_many_tags else ok picked))
  unfolding clean_tag_names
  clean_tag_names-eq-first_names raw =
      let names = names_of (split_on b',' raw) in
      let loop = clean_items-eq (split_on b',' raw) [] [] in
      let all = keep-all (unseen []) (first_names names) (λ m. refl) in
      elim (Bool-cases (any_of (λ n. is_empty (slugify n)) names)) [
        | inl e ↦ rw (clean_tag_names, loop, all, e) refl
        | inr e ↦ elim (Bool-cases (ltb 5 (length (map (take 50) (first_names names))))) [
          | inl f ↦ rw (clean_tag_names, loop, all, e, f) refl
          | inr f ↦ rw (clean_tag_names, loop, all, e, f) refl
        ]
      ]
