-- ===== src/Core/Forms/Save/Links.antt =====
-- What saving a post leaves in the tables.
use Prim.{tt}
use hivewiki_web.Base.{
  ℕ, suc, ◌≤◌, ◌≡◌, ◌⊎◌, refl, subst, ◌∙◌, Bool, true, false, Option, none, some, List, [], ◌∷◌,
  ◌==◌, ltb, if◌then◌else◌, length, All, any_of, arith, Result, ok, err, Bool-cases, Option-cases,
  inl, inr,
}
use hivewiki_web.Base.Text.{Text}
use hivewiki_web.Core.Models.{Post, Tag, sync_cached_content_fields}
use hivewiki_web.Core.Forms.{FormError}
use hivewiki_web.Core.Forms.Tags.{get_or_create_tag}
use hivewiki_web.Core.Forms.Tags.Slugs.{
  HasUniqueSlugs, IsPlacing, IsKeeping, is_tag, get_or_create_tag-IsTagged,
}
use hivewiki_web.Core.Forms.Save.{
  PostData, Tables, is_linked, write_post, tags_for, save_content, save,
}
use hivewiki_web.Core.Forms.Save.Posts.{IsRow, IsWritten, write_post-IsWritten}

-- Afterwards the post is linked with the given rows only, and the links of other posts are as they were.
abbrev pub IsSettingLinks : (ℕ → List ℕ → List (ℕ × ℕ) → List (ℕ × ℕ)) → Type 0
IsSettingLinks set_links =
    (post_id : ℕ) (ids : List ℕ) (links : List (ℕ × ℕ)) (other id : ℕ)
    → is_linked other id (set_links post_id ids links)
      ≡ (if post_id == other then any_of (λ i. i == id) ids else is_linked other id links)

pub Result-cases :
    {E A : Type 0} (r : Result E A) → ((e : E) × (r ≡ err e)) ⊎ ((a : A) × (r ≡ ok a))
Result-cases (ok a) = inr (a, refl)
Result-cases (err e) = inl (e, refl)

module _ (iexact : Text → Text → Bool) (iexact_refl : (t : Text) → iexact t t ≡ true)
    (slugify : Text → Text) (place : Tag → List Tag → List Tag) (placing : IsPlacing place)
    (meanwhile : ℕ → List Tag → List Tag)
    (keeps : (k : ℕ) (ts : List Tag) → HasUniqueSlugs ts → HasUniqueSlugs (meanwhile k ts))
    (keeping : IsKeeping meanwhile) where
  -- One of the ids is that of a row with the name, but for case.
  abbrev HasTag : List Tag → List ℕ → Text → Type 0
  HasTag tags ids name =
      (id : ℕ) × (any_of (is_tag iexact iexact_refl place placing id name) tags ≡ true)
      × (any_of (λ i. i == id) ids ≡ true)

  All-HasTag :
      (tags : List Tag) (id : ℕ) (ids : List ℕ) (names : List Text)
      → All (HasTag tags ids) names
      → All (HasTag tags (id ∷ ids)) names
  All-HasTag tags id ids [] h = tt
  All-HasTag tags id ids (name ∷ names) ((i, named, there), h) =
      ((i, named, ground (arith, there)), All-HasTag tags id ids names h)

  tags_for-HasTag :
      (now id : ℕ) (names : List Text) (before after : List Tag) (ids : List ℕ)
      → tags_for iexact slugify place meanwhile now id names before ≡ ok (ids, after)
      → All (HasTag after ids) names
        × ((p : Tag → Bool) → any_of p before ≡ true → any_of p after ≡ true)
        × (HasUniqueSlugs before → HasUniqueSlugs after)
  unfolding tags_for
  tags_for-HasTag now id [] before after ids done =
      let same : before ≡ after = cc (done) in rw (← same) (tt, λ p h. h, λ h. h)
  tags_for-HasTag now id (name ∷ names) before after ids done =
      elim (Result-cases (get_or_create_tag iexact place slugify meanwhile now id name before)) [
        | inl (e, f) ↦ let none_made = rw (tags_for, f) at done in cc (none_made)
        | inr ((t, between), f) ↦
            elim (Result-cases
              (tags_for iexact slugify place meanwhile now (suc id) names between)) [
                | inl (e, g) ↦ let none_made = rw (tags_for, f, g) at done in cc (none_made)
                | inr ((more, last), g) ↦
                    let both : ◌≡◌ {A = Result FormError (List ℕ × List Tag)}
                        (ok (t.id ∷ more, last)) (ok (ids, after)) =
                      rw (tags_for, f, g) at done in
                    let same_ids : t.id ∷ more ≡ ids = cc (both) in
                    let same_rows : last ≡ after = cc (both) in
                    let (there, kept, unique) =
                      get_or_create_tag-IsTagged iexact iexact_refl place placing meanwhile keeps
                        keeping slugify now id name before between t f in
                    let (rest, kept_rest, unique_rest) =
                      tags_for-HasTag now (suc id) names between last more g in
                    (
                      subst (λ ts. All (HasTag ts ids) (name ∷ names)) same_rows
                          (subst (λ is. All (HasTag last is) (name ∷ names)) same_ids
                            (
                              (
                                t.id,
                                kept_rest (is_tag iexact iexact_refl place placing t.id name) there,
                                ground arith,
                              ),
                              All-HasTag last t.id more names rest,
                            )),
                      λ p h. subst (λ ts. any_of p ts ≡ true) same_rows (kept_rest p (kept p h)),
                      λ h. subst HasUniqueSlugs same_rows (unique_rest (unique h)),
                    )
              ]
      ]

  module _ (build_post_markdown : Text → Option Text)
      (set_links : ℕ → List ℕ → List (ℕ × ℕ) → List (ℕ × ℕ))
      (setting : IsSettingLinks set_links) where
    -- The post has the content and the author and is written; each name has a tag among those of the post; the pages of
    -- the post are the given ones; other posts keep their links; no slug is doubled.
    abbrev pub IsSaved : ℕ → ℕ → ℕ → PostData → Option Post → Tables → Post → Tables → Type 0
    IsSaved now id author cleaned o db post db' =
        (length post.title_cache ≤ 255)
        × (post.author_user_id ≡ some author)
        × (build_post_markdown cleaned.body_markdown ≡ some post.content_markdown)
        × IsWritten now id o cleaned.status db.posts post db'.posts
        × All
            (λ name.
              (i : ℕ) × (any_of (is_tag iexact iexact_refl place placing i name) db'.tags ≡ true)
              × (is_linked post.id i db'.post_tags ≡ true))
            cleaned.tag_names
        × ((id : ℕ)
            → is_linked post.id id db'.post_wiki_documents
              ≡ any_of (λ i. i == id) cleaned.wiki_documents)
        × ((other id : ℕ)
            → (post.id == other) ≡ false
            → (is_linked other id db'.post_tags ≡ is_linked other id db.post_tags)
              × (is_linked other id db'.post_wiki_documents
                  ≡ is_linked other id db.post_wiki_documents))
        × (HasUniqueSlugs db.tags → HasUniqueSlugs db'.tags)

    if_itself : (n : ℕ) (a b : Bool) → (if n == n then a else b) ≡ a
    if_itself n a b = ground arith

    linked_itself :
        (post_id id : ℕ) (ids : List ℕ) (links : List (ℕ × ℕ))
        → is_linked post_id id (set_links post_id ids links) ≡ any_of (λ i. i == id) ids
    linked_itself post_id id ids links =
        setting post_id ids links post_id id
        ∙ if_itself post_id (any_of (λ i. i == id) ids) (is_linked post_id id links)

    linked_other :
        (post_id other id : ℕ) (ids : List ℕ) (links : List (ℕ × ℕ))
        → (post_id == other) ≡ false
        → is_linked other id (set_links post_id ids links) ≡ is_linked other id links
    linked_other post_id other id ids links apart =
        rw (setting post_id ids links other id, apart) refl

    linked_names :
        (tags : List Tag) (post_id : ℕ) (ids : List ℕ) (links : List (ℕ × ℕ)) (names : List Text)
        → All (HasTag tags ids) names
        → All
            (λ name.
              (i : ℕ) × (any_of (is_tag iexact iexact_refl place placing i name) tags ≡ true)
              × (is_linked post_id i (set_links post_id ids links) ≡ true))
            names
    linked_names tags post_id ids links [] h = tt
    linked_names tags post_id ids links (name ∷ names) ((i, named, there), h) = (
      (i, named, linked_itself post_id i ids links ∙ there),
      linked_names tags post_id ids links names h,
    )

    written_content :
        (now id author : ℕ) (cleaned : PostData) (o : Option Post) (content : Text)
        (posts : List Post)
        → ((write_post now id author content cleaned.status o posts).0.content_markdown ≡ content)
          × ((write_post now id author content cleaned.status o posts).0.author_user_id
              ≡ some author)
    unfolding sync_cached_content_fields
    written_content now id author cleaned none content posts = (refl, refl)
    written_content now id author cleaned (some post) content posts = (refl, refl)

    save_content-IsSaved :
        (now id author : ℕ) (cleaned : PostData) (o : Option Post) (content : Text)
        (db db' : Tables) (post : Post)
        → IsRow o db.posts
        → build_post_markdown cleaned.body_markdown ≡ some content
        → save_content iexact slugify place meanwhile build_post_markdown set_links now id author
            cleaned o content db
          ≡ ok (post, db')
        → IsSaved now id author cleaned o db post db'
    unfolding save_content
    save_content-IsSaved now id author cleaned o content db db' post row built done =
        let written = (write_post now id author content cleaned.status o db.posts).0 in
        elim (Bool-cases (ltb 255 (length written.title_cache))) [
          | inl e ↦ let none_made = rw (save_content, e) at done in cc (none_made)
          | inr e ↦
              elim (Result-cases
                (tags_for iexact slugify place meanwhile now (suc id) cleaned.tag_names db.tags)) [
                  | inl (f, g) ↦ let none_made = rw (save_content, e, g) at done in cc (none_made)
                  | inr ((ids, tags), g) ↦
                      let (tagged, kept, unique) =
                        tags_for-HasTag now (suc id) cleaned.tag_names db.tags tags ids g in
                      let (content_kept, author_kept) =
                        written_content now id author cleaned o content db.posts in
                      let result : Tables = record {
                        posts = (write_post now id author content cleaned.status o db.posts).1;
                        tags = tags;
                        post_tags = set_links written.id ids db.post_tags;
                        post_wiki_documents =
                            set_links written.id cleaned.wiki_documents db.post_wiki_documents;
                      } in
                      let both : ◌≡◌ {A = Result FormError (Post × Tables)} (ok (written, result))
                          (ok (post, db')) =
                        rw (save_content, e, g) at done in
                      let same_post : written ≡ post = cc (both) in
                      let same_db : result ≡ db' = cc (both) in
                      let saved : IsSaved now id author cleaned o db written result = (
                        ground arith,
                        author_kept,
                        rw content_kept built,
                        write_post-IsWritten now id author content cleaned.status o db.posts row,
                        linked_names tags written.id ids db.post_tags cleaned.tag_names tagged,
                        λ id.
                            linked_itself written.id id cleaned.wiki_documents
                              db.post_wiki_documents,
                        λ other id apart. (
                          linked_other written.id other id ids db.post_tags apart,
                          linked_other written.id other id cleaned.wiki_documents
                              db.post_wiki_documents apart,
                        ),
                        unique,
                      ) in
                      subst (λ d. IsSaved now id author cleaned o db post d) same_db
                        (subst (λ p. IsSaved now id author cleaned o db p result) same_post saved)
                ]
        ]

    -- Let `iexact` hold of a text and itself, `place` put a row at a place, `set_links` set the links of one
    -- post, other requests double no slug and remove and change no tag, and a post that is edited be the
    -- row of its id. A post that is saved has the author, the status, and the content that is built from
    -- the body, with a title of at most 255 characters; it is the row of its id, which is the new or the
    -- old one, and the rows of other posts are as they were. For each of its tag names, the post is
    -- linked with a tag in the table that has that name, but for case; its wiki pages are the chosen ones,
    -- other posts keep their tags and pages, and no slug is doubled.
    pub save-IsSaved :
        (now id author : ℕ) (cleaned : PostData) (o : Option Post) (db db' : Tables) (post : Post)
        → IsRow o db.posts
        → save iexact slugify place meanwhile build_post_markdown set_links now id author cleaned o
            db
          ≡ ok (post, db')
        → IsSaved now id author cleaned o db post db'
    unfolding save
    save-IsSaved now id author cleaned o db db' post row done =
        elim (Option-cases (build_post_markdown cleaned.body_markdown)) [
          | inl e ↦ let none_made = rw (save, e) at done in cc (none_made)
          | inr (content, e) ↦
              save_content-IsSaved now id author cleaned o content db db' post row e
                (let made = rw (save, e) at done in made)
        ]
