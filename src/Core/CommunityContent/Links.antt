-- ===== src/Core/CommunityContent/Links.antt =====
-- The wiki pages that a post links to: each once, and all of them.
use Prim.{tt}
use hivewiki_web.Base.{
  ℕ, ◌≡◌, refl, Bool, true, false, ◌||◌, List, [], ◌∷◌, ◌++◌, arith, any_of, length, Bool-cases,
  inl, inr,
}
use hivewiki_web.Base.Text.{Text, text_eq, text_eq_refl, eq_of_text_eq}
use hivewiki_web.Core.CommunityContent.{wiki_links, first_occurrences, extract_linked_wiki_slugs}

-- No text is in the list twice.
abbrev pub IsDistinct : List Text → Type 0
IsDistinct [] = Unit
IsDistinct (s ∷ ss) = (any_of (text_eq s) ss ≡ false) × IsDistinct ss

any_of-append :
    (s : Text) (xs ys : List Text)
    → any_of (text_eq s) (xs ++ ys) ≡ any_of (text_eq s) xs || any_of (text_eq s) ys
any_of-append s [] ys = refl
any_of-append s (x ∷ xs) ys = ground (arith, any_of-append s xs ys)

text_eq-false : (s t : Text) → text_eq s t ≡ false → text_eq t s ≡ false
text_eq-false s t h = elim (Bool-cases (text_eq t s)) [
  | inl e ↦ let same = eq_of_text_eq t s e in cc (h, same, text_eq_refl s)
  | inr e ↦ e
]

IsDistinct-append :
    (xs : List Text) (s : Text)
    → IsDistinct xs
    → any_of (text_eq s) xs ≡ false
    → IsDistinct (xs ++ s ∷ [])
IsDistinct-append [] s d h = (refl, tt)
IsDistinct-append (x ∷ xs) s (n, d) h =
    let unlike : text_eq s x ≡ false = ground arith in
    let rest : any_of (text_eq s) xs ≡ false = ground arith in
    (rw (any_of-append x xs (s ∷ []), n, text_eq-false s x unlike), IsDistinct-append xs s d rest)

-- Leaving out a text that is there already changes no membership.
absorb :
    (t s : Text) (done ss : List Text)
    → any_of (text_eq s) done ≡ true
    → any_of (text_eq t) done || any_of (text_eq t) ss
      ≡ any_of (text_eq t) done || (text_eq t s || any_of (text_eq t) ss)
absorb t s done ss e = elim (Bool-cases (text_eq t s)) [
  | inl same ↦
      let there : any_of (text_eq t) done ≡ true = rw (eq_of_text_eq t s same) e in rw there
  | inr other ↦ rw other
]

regroup : (a b c : Bool) → (a || (b || false)) || c ≡ a || (b || c)
regroup a b c = ground arith

module _ (is_word : ℕ → Bool) where
  IsDistinct-first_occurrences :
      (done slugs : List Text) → IsDistinct done → IsDistinct (first_occurrences is_word done slugs)
  unfolding first_occurrences
  IsDistinct-first_occurrences done [] d = d
  IsDistinct-first_occurrences done (s ∷ ss) d = elim (Bool-cases (any_of (text_eq s) done)) [
    | inl e ↦ rw e (IsDistinct-first_occurrences done ss d)
    | inr e ↦ rw e (IsDistinct-first_occurrences (done ++ s ∷ []) ss (IsDistinct-append done s d e))
  ]

  any_of-first_occurrences :
      (t : Text) (done slugs : List Text)
      → any_of (text_eq t) (first_occurrences is_word done slugs)
        ≡ any_of (text_eq t) done || any_of (text_eq t) slugs
  unfolding first_occurrences
  any_of-first_occurrences t done [] = ground arith
  any_of-first_occurrences t done (s ∷ ss) = elim (Bool-cases (any_of (text_eq s) done)) [
    | inl e ↦ rw (e, any_of-first_occurrences t done ss) (absorb t s done ss e)
    | inr e ↦
        rw (e, any_of-first_occurrences t (done ++ s ∷ []) ss, any_of-append t done (s ∷ []))
          (regroup (any_of (text_eq t) done) (text_eq t s) (any_of (text_eq t) ss))
  ]

  -- The slugs are those of the links in the content, each of them once.
  pub extract_linked_wiki_slugs_lem :
      (content : Text)
      → IsDistinct (extract_linked_wiki_slugs is_word content)
        × ((t : Text)
            → any_of (text_eq t) (extract_linked_wiki_slugs is_word content)
              ≡ any_of (text_eq t) (wiki_links is_word (length content) content))
  unfolding extract_linked_wiki_slugs
  extract_linked_wiki_slugs_lem content =
      let links = wiki_links is_word (length content) content in
      (IsDistinct-first_occurrences [] links tt, λ t. any_of-first_occurrences t [] links)
