-- ===== src/Core/Comments/Threads.antt =====
-- Each comment answers an older one on the same post, or none.
use Prim.{tt}
use hivewiki_web.Base.{
  ℕ, ◌≡◌, refl, subst, ◌∙◌, Bool, true, false, ◌&&◌, Option, none, some, List, [], ◌∷◌, ◌==◌,
  first_of_rows, first_of_rows-holds, any_of, update_of, arith, Bool-cases, Option-cases, inl, inr,
}
use hivewiki_web.Base.Text.{Text, text_eq}
use hivewiki_web.Django.Cache.{Cache}
use hivewiki_web.Core.Models.{Post, Comment}
use hivewiki_web.Core.Forms.{clean_content}
use hivewiki_web.Core.Forms.Save.Links.{Result-cases}
use hivewiki_web.Core.Reactions.{visible_post, comment_on, is_kept}
use hivewiki_web.Core.Comments.{
  id_of, found_parent, own_comment_on, edit_found, community_comment_edit, create_under,
  community_comment_create,
}
use hivewiki_web.Accounts.Models.{HiveUser}
use hivewiki_web.Accounts.Notifications.{Inbox}

abbrev pub HasParent : Option ℕ → ℕ → List Comment → Type 0
HasParent none post_id cs = Unit
HasParent (some id) post_id cs = any_of (λ d. d.id == id && d.post_id == post_id) cs ≡ true

abbrev pub IsThreaded : List Comment → Type 0
IsThreaded [] = Unit
IsThreaded (c ∷ cs) =
    (any_of (λ d. d.id == c.id) cs ≡ false)
    × HasParent c.parent_comment_id c.post_id cs
    × IsThreaded cs

any_of-edited :
    (id : ℕ) (f : Comment → Comment) (q : Comment → Bool) (cs : List Comment)
    → ((c : Comment) → q (f c) ≡ q c)
    → any_of q (update_of (λ d. d.id == id) f cs) ≡ any_of q cs
any_of-edited id f q [] h = refl
any_of-edited id f q (c ∷ cs) h = elim (Bool-cases (c.id == id)) [
  | inl e ↦ rw (e, h c, any_of-edited id f q cs h) refl
  | inr e ↦ rw (e, any_of-edited id f q cs h) refl
]

abbrev edited : ℕ → Text → Comment → Comment
edited now content d = record d { content = content; updated_at = now }

HasParent-edited :
    (now id : ℕ) (content : Text) (parent : Option ℕ) (post_id : ℕ) (cs : List Comment)
    → HasParent parent post_id cs
    → HasParent parent post_id (update_of (λ d. d.id == id) (edited now content) cs)
HasParent-edited now id content none post_id cs h = tt
HasParent-edited now id content (some p) post_id cs h =
    any_of-edited id (edited now content) (λ d. d.id == p && d.post_id == post_id) cs (λ c. refl)
    ∙ h

IsThreaded-edited :
    (now id : ℕ) (content : Text) (cs : List Comment)
    → IsThreaded cs
    → IsThreaded (update_of (λ d. d.id == id) (edited now content) cs)
IsThreaded-edited now id content [] h = tt
IsThreaded-edited now id content (c ∷ cs) (fresh, parent, h) =
    let fresh' = any_of-edited id (edited now content) (λ d. d.id == c.id) cs (λ c. refl) ∙ fresh in
    let parent' = HasParent-edited now id content c.parent_comment_id c.post_id cs parent in
    let rest = IsThreaded-edited now id content cs h in
    elim (Bool-cases (c.id == id)) [
      | inl e ↦ rw e (fresh', parent', rest)
      | inr e ↦ rw e (fresh', parent', rest)
    ]

any_of-first :
    (p q : Comment → Bool) (cs : List Comment) (c : Comment)
    → first_of_rows p cs ≡ some c
    → q c ≡ true
    → any_of q cs ≡ true
any_of-first p q [] c h k = cc (h)
any_of-first p q (d ∷ cs) c h k = elim (Bool-cases (p d)) [
  | inl e ↦
      let both : some d ≡ some c = rw e at h in let same : d ≡ c = cc (both) in rw (same, k) refl
  | inr e ↦
      let rest = any_of-first p q cs c (let later = rw e at h in later) k in ground (arith, rest)
]

HasParent-found :
    (post_id : ℕ) (parent_id : Option ℕ) (comments : List Comment) (parent : Option Comment)
    → found_parent post_id parent_id comments ≡ some parent
    → HasParent (id_of parent) post_id comments
HasParent-found post_id none comments parent h = let same : none ≡ parent = cc (h) in rw (← same) tt
HasParent-found post_id (some id) comments parent h =
    elim (Option-cases (comment_on post_id id comments)) [
      | inl e ↦ let missing = rw (found_parent, e) at h in cc (missing)
      | inr (c, e) ↦
          let both : some (some c) ≡ some parent = rw (found_parent, e) at h in
          let same : some c ≡ parent = cc (both) in
          let holds =
            first_of_rows-holds (λ d. d.post_id == post_id && is_kept d.deleted_at && d.id == id)
              comments c e in
          let there =
            any_of-first (λ d. d.post_id == post_id && is_kept d.deleted_at && d.id == id)
              (λ d. d.id == c.id && d.post_id == post_id) comments c e (ground arith) in
          subst (λ o. HasParent (id_of o) post_id comments) same there
    ]

edit_found-IsThreaded :
    (now : ℕ) (o : Option Comment) (content : Text) (comments : List Comment)
    → IsThreaded comments
    → IsThreaded (edit_found now o content comments).1
unfolding edit_found
edit_found-IsThreaded now none content comments h = h
edit_found-IsThreaded now (some c) content comments h =
    elim (Result-cases (clean_content content)) [
      | inl (e, f) ↦ rw (IsThreaded, f) h
      | inr (cleaned, f) ↦ rw (IsThreaded, f) (IsThreaded-edited now c.id cleaned comments h)
    ]

-- Whatever a user edits, each comment still answers an older one on the same post, or none.
pub community_comment_edit-IsThreaded :
    (now : ℕ) (actor : HiveUser) (post_id comment_id : ℕ) (content : Text) (posts : List Post)
    (comments : List Comment)
    → IsThreaded comments
    → IsThreaded (community_comment_edit now actor post_id comment_id content posts comments).1
unfolding community_comment_edit
community_comment_edit-IsThreaded now actor post_id comment_id content posts comments h =
    elim (Option-cases (visible_post actor.id post_id posts)) [
      | inl e ↦ rw (IsThreaded, e) h
      | inr (p, e) ↦
          rw (IsThreaded, e)
            (edit_found-IsThreaded now (own_comment_on actor.id p.id comment_id comments) content
              comments h)
    ]

module _ (uuid_text : ℕ → Text) (sha256_hex : Text → Text) (cache : Cache Text ℕ text_eq)
    (new_id : ℕ → ℕ) where
  create_under-IsThreaded :
      (now id : ℕ) (actor : HiveUser) (post : Post) (parent_id : Option ℕ)
      (o : Option (Option Comment)) (content : Text) (comments : List Comment)
      (inbox : Inbox uuid_text sha256_hex cache)
      → found_parent post.id parent_id comments ≡ o
      → any_of (λ d. d.id == id) comments ≡ false
      → IsThreaded comments
      → IsThreaded
          (create_under uuid_text sha256_hex cache new_id now id actor post o content
            (comments, inbox)).1.0
  unfolding create_under
  create_under-IsThreaded now id actor post parent_id none content comments inbox found fresh h = h
  create_under-IsThreaded now id actor post parent_id (some parent) content comments inbox found
        fresh h =
      elim (Result-cases (clean_content content)) [
        | inl (e, f) ↦ rw (IsThreaded, f) h
        | inr (cleaned, f) ↦
            rw (IsThreaded, f) (fresh, HasParent-found post.id parent_id comments parent found, h)
      ]

  -- Let no comment have the key of the new row. Whatever a user asks to be created, each comment still
  -- answers an older one on the same post, or none.
  pub community_comment_create-IsThreaded :
      (now id : ℕ) (actor : HiveUser) (post_id : ℕ) (parent_id : Option ℕ) (content : Text)
      (posts : List Post) (comments : List Comment) (inbox : Inbox uuid_text sha256_hex cache)
      → any_of (λ d. d.id == id) comments ≡ false
      → IsThreaded comments
      → IsThreaded
          (community_comment_create uuid_text sha256_hex cache new_id now id actor post_id parent_id
            content posts
            (comments, inbox)).1.0
  unfolding community_comment_create
  community_comment_create-IsThreaded now id actor post_id parent_id content posts comments inbox
        fresh h =
      elim (Option-cases (visible_post actor.id post_id posts)) [
        | inl e ↦ rw (IsThreaded, e) h
        | inr (p, e) ↦
            rw (IsThreaded, e)
              (create_under-IsThreaded now id actor p parent_id
                (found_parent p.id parent_id comments) content comments inbox refl fresh h)
      ]
