-- ===== src/Core/LinkedWiki/Batch.antt =====
-- The wiki pages of a list of posts are those of each post.
use Prim.{tt}
use hivewiki_web.Base.{
  ℕ, ◌≡◌, refl, sym, subst, ap, ◌∙◌, Bool, true, false, ◌&&◌, ◌||◌, Option, none, some, List, [],
  ◌∷◌, ◌++◌, map, ◌==◌, if◌then◌else◌, first_of_rows, any_of, any_apart, All, append_nil, arith,
  Bool-cases, inl, inr,
}
use hivewiki_web.Base.Text.{Text, text_eq, text_eq_refl, eq_of_text_eq, is_empty}
use hivewiki_web.Core.Models.{Post}
use hivewiki_web.Core.AdminContent.{WikiDocument}
use hivewiki_web.Core.LinkedWiki.{
  Linked, add_document, add_documents, is_servable, documents_of, document_in, add_slugs,
  get_wiki_documents_for_post, all_slugs, ids_of, attach_each, attach_linked_wiki_documents,
}

-- A slug that is asked for is found as in the whole table.
document_in-documents_of :
    (s : Text) (slugs : List Text) (table : List WikiDocument)
    → any_of (text_eq s) slugs ≡ true
    → document_in s (documents_of slugs table)
      ≡ first_of_rows (λ d. is_servable d && text_eq d.slug s) table
document_in-documents_of s slugs [] h = refl
document_in-documents_of s slugs (d ∷ table) h =
    let ih = document_in-documents_of s slugs table h in
    elim (Bool-cases (is_servable d)) [
      | inr off ↦ rw (off, ih) refl
      | inl on ↦ elim (Bool-cases (text_eq d.slug s)) [
        | inl e ↦
            let asked : any_of (text_eq d.slug) slugs ≡ true = rw (eq_of_text_eq d.slug s e) h in
            rw (on, asked, e) refl
        | inr e ↦ elim (Bool-cases (any_of (text_eq d.slug) slugs)) [
          | inl f ↦ rw (on, f, e) ih
          | inr f ↦ rw (on, f, e) ih
        ]
      ]
    ]

-- Two states with the same pages and the same ids.
abbrev IsSame : Linked → Linked → Type 0
IsSame (ds, seen) (es, seen') =
    (ds ≡ es) × ((i : ℕ) → any_of (λ j. j == i) seen ≡ any_of (λ j. j == i) seen')

IsSame-add_document :
    (o : Option WikiDocument) (a b : Linked)
    → IsSame a b
    → IsSame (add_document o a) (add_document o b)
IsSame-add_document none a b h = h
IsSame-add_document (some d) (ds, seen) (es, seen') (same, ids) =
    let here = ids d.id in
    elim (Bool-cases (any_of (λ i. i == d.id) seen)) [
      | inl e ↦ rw (e, sym here ∙ e) (same, ids)
      | inr e ↦
          rw (e, sym here ∙ e) (ap (λ x. x ++ d ∷ []) same, λ i. ap (λ r. d.id == i || r) (ids i))
    ]

IsSame-add_slugs :
    (t u : List WikiDocument) (slugs : List Text) (a b : Linked)
    → All (λ s. document_in s t ≡ document_in s u) slugs
    → IsSame a b
    → IsSame (add_slugs t slugs a) (add_slugs u slugs b)
unfolding add_slugs
IsSame-add_slugs t u [] a b found h = h
IsSame-add_slugs t u (s ∷ slugs) a b (this, found) h =
    IsSame-add_slugs t u slugs (add_document (document_in s t) a) (add_document (document_in s u) b)
      found
      (subst (λ o. IsSame (add_document (document_in s t) a) (add_document o b)) this
        (IsSame-add_document (document_in s t) a b h))

add_last :
    (a : List WikiDocument) (x : WikiDocument) (b : List WikiDocument)
    → (a ++ x ∷ []) ++ b ≡ a ++ x ∷ b
add_last [] x b = refl
add_last (y ∷ a) x b = ap (λ (t : List WikiDocument). y ∷ t) (add_last a x b)

swapped : (a b c : Bool) → (a || b) || c ≡ b || (a || c)
swapped a b c = ground arith

-- No page is in the list twice: the key of PostWikiDocument.
abbrev pub IsDistinctPages : List WikiDocument → Type 0
IsDistinctPages [] = Unit
IsDistinctPages (d ∷ ds) = (any_of (λ i. i == d.id) (ids_of ds) ≡ false) × IsDistinctPages ds

abbrev IsUnseen : List ℕ → WikiDocument → Type 0
IsUnseen seen d = any_of (λ i. i == d.id) seen ≡ false

All-IsUnseen :
    (d : WikiDocument) (seen : List ℕ) (ds : List WikiDocument)
    → any_of (λ i. i == d.id) (ids_of ds) ≡ false
    → All (IsUnseen seen) ds
    → All (IsUnseen (d.id ∷ seen)) ds
All-IsUnseen d seen [] h k = tt
All-IsUnseen d seen (e ∷ ds) h (k, ks) =
    let (apart, rest) = any_apart (λ i. i == d.id) e.id (ids_of ds) h in
    let this : (d.id == e.id) ≡ false = ground arith in (rw this k, All-IsUnseen d seen ds rest ks)

add_documents-distinct :
    (ds acc : List WikiDocument) (seen : List ℕ)
    → IsDistinctPages ds
    → All (IsUnseen seen) ds
    → ((add_documents ds (acc, seen)).0 ≡ acc ++ ds)
      × ((i : ℕ)
          → any_of (λ j. j == i) (add_documents ds (acc, seen)).1
            ≡ any_of (λ j. j == i) seen || any_of (λ j. j == i) (ids_of ds))
unfolding add_documents
add_documents-distinct [] acc seen h k = (sym (append_nil acc), λ i. ground arith)
add_documents-distinct (d ∷ ds) acc seen (new, h) (unseen, k) =
    let (pages, ids) =
      add_documents-distinct ds (acc ++ d ∷ []) (d.id ∷ seen) h (All-IsUnseen d seen ds new k) in
    rw (add_documents, unseen)
      (
        pages ∙ add_last acc d ds,
        λ i.
            ids i
            ∙ swapped (d.id == i) (any_of (λ j. j == i) seen) (any_of (λ j. j == i) (ids_of ds)),
      )

All-nothing : (ds : List WikiDocument) → All (IsUnseen []) ds
All-nothing [] = tt
All-nothing (d ∷ ds) = (refl, All-nothing ds)

any_of-append :
    (s : Text) (xs ys : List Text)
    → any_of (text_eq s) (xs ++ ys) ≡ any_of (text_eq s) xs || any_of (text_eq s) ys
any_of-append s [] ys = refl
any_of-append s (x ∷ xs) ys = ground (arith, any_of-append s xs ys)

-- Slugs that are asked for in two queries are found alike.
All-found :
    (own all slugs : List Text) (table : List WikiDocument)
    → ((s : Text) → any_of (text_eq s) slugs ≡ true → any_of (text_eq s) own ≡ true)
    → ((s : Text) → any_of (text_eq s) slugs ≡ true → any_of (text_eq s) all ≡ true)
    → All
        (λ s. document_in s (documents_of own table) ≡ document_in s (documents_of all table))
        slugs
All-found own all [] table h k = tt
All-found own all (s ∷ slugs) table h k =
    let itself : any_of (text_eq s) (s ∷ slugs) ≡ true = rw (text_eq_refl s) refl in
    (
      document_in-documents_of s own table (h s itself)
          ∙ sym (document_in-documents_of s all table (k s itself)),
      All-found own all slugs table (λ t there. h t (ground (arith, there)))
          (λ t there. k t (ground (arith, there))),
    )

module _ (explicit_of : Post → List WikiDocument) (slugs_of : Text → List Text)
    (image_of : Text → Text) where
  linked_of_post :
      (table : List WikiDocument) (post : Post) (all : List Text)
      → IsDistinctPages (explicit_of post)
      → ((s : Text)
          → any_of (text_eq s) (slugs_of post.content_markdown) ≡ true
          → any_of (text_eq s) all ≡ true)
      → get_wiki_documents_for_post explicit_of slugs_of image_of table post
        ≡ (add_slugs
            (documents_of all table)
            (slugs_of post.content_markdown)
            (explicit_of post, ids_of (explicit_of post))).0
  unfolding get_wiki_documents_for_post add_slugs
  linked_of_post table post all distinct asked =
      let own = slugs_of post.content_markdown in
      let start : IsSame (add_documents (explicit_of post) ([], []))
          (explicit_of post, ids_of (explicit_of post)) =
        add_documents-distinct (explicit_of post) [] [] distinct (All-nothing (explicit_of post)) in
      let same =
        (IsSame-add_slugs (documents_of own table) (documents_of all table) own
          (add_documents (explicit_of post) ([], [])) (explicit_of post, ids_of (explicit_of post))
          (All-found own all own table (λ s h. h) asked) start).0 in
      by_emptiness own (add_documents (explicit_of post) ([], [])) (documents_of own table) ∙ same
    where
      by_emptiness :
          (slugs : List Text) (linked : Linked) (by_slug : List WikiDocument)
          → (if is_empty slugs then linked.0 else (add_slugs by_slug slugs linked).0)
            ≡ (add_slugs by_slug slugs linked).0
      by_emptiness [] linked by_slug = refl
      by_emptiness (s ∷ slugs) linked by_slug = refl

  -- What the view attaches to each post by itself.
  abbrev pub one_by_one : List WikiDocument → Post → Post × List WikiDocument × Text
  one_by_one table p = (
    p,
    get_wiki_documents_for_post explicit_of slugs_of image_of table p,
    image_of p.content_markdown,
  )

  attach_each-one_by_one :
      (table : List WikiDocument) (all : List Text) (posts : List Post)
      → All (λ p. IsDistinctPages (explicit_of p)) posts
      → ((s : Text)
          → any_of (text_eq s) (all_slugs explicit_of slugs_of image_of posts) ≡ true
          → any_of (text_eq s) all ≡ true)
      → attach_each explicit_of slugs_of image_of (documents_of all table) posts
        ≡ map (one_by_one table) posts
  unfolding attach_each all_slugs
  attach_each-one_by_one table all [] distinct asked = refl
  attach_each-one_by_one table all (p ∷ ps) (d, ds) asked =
      let own = slugs_of p.content_markdown in
      let rest = all_slugs explicit_of slugs_of image_of ps in
      let first =
        linked_of_post table p all d
          (λ s h. asked s (any_of-append s own rest ∙ ap (λ b. b || any_of (text_eq s) rest) h)) in
      let others = attach_each-one_by_one table all ps ds (λ s h.
        asked s (
          any_of-append s own rest
          ∙ behind (any_of (text_eq s) own) (any_of (text_eq s) rest) h)) in
      rw (attach_each, others, first) refl
    where
      behind : (a b : Bool) → b ≡ true → a || b ≡ true
      behind a b h = ground arith

  no_slugs :
      (table : List WikiDocument) (posts : List Post)
      → is_empty (all_slugs explicit_of slugs_of image_of posts) ≡ true
      → map (λ p. (p, explicit_of p, image_of p.content_markdown)) posts
        ≡ attach_each explicit_of slugs_of image_of table posts
  unfolding attach_each all_slugs add_slugs
  no_slugs table [] h = refl
  no_slugs table (p ∷ ps) h =
      let (own, rest) =
        both_empty (slugs_of p.content_markdown) (all_slugs explicit_of slugs_of image_of ps) h in
      rw (attach_each, own, no_slugs table ps rest) refl
    where
      both_empty : (a b : List Text) → is_empty (a ++ b) ≡ true → (a ≡ []) × (is_empty b ≡ true)
      both_empty [] b h = (refl, h)
      both_empty (x ∷ a) b h = cc (h)

  -- Let no post name a page twice. The pages and the image that a list of posts gets with one query for all
  -- slugs are those that each post gets by itself.
  pub attach_linked_wiki_documents-eq-one_by_one :
      (table : List WikiDocument) (posts : List Post)
      → All (λ p. IsDistinctPages (explicit_of p)) posts
      → attach_linked_wiki_documents explicit_of slugs_of image_of table posts
        ≡ map (one_by_one table) posts
  unfolding attach_linked_wiki_documents
  attach_linked_wiki_documents-eq-one_by_one table posts distinct =
      let slugs = all_slugs explicit_of slugs_of image_of posts in
      let each = attach_each-one_by_one table slugs posts distinct (λ s h. h) in
      elim (Bool-cases (is_empty slugs)) [
        | inl e ↦
            rw (attach_linked_wiki_documents, e)
              (no_slugs (documents_of slugs table) posts e ∙ each)
        | inr e ↦ rw (attach_linked_wiki_documents, e) each
      ]
