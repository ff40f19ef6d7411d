-- ===== src/Accounts/Notifications/Targets/Batch.antt =====
-- Batched reads of the targets agree with a look-up for each notification.
use Prim.{tt}
use hivewiki_web.Base.{
  ℕ, ◌≡◌, refl, ap, Bool, true, false, Option, none, some, List, [], ◌∷◌, arith, ◌==◌, keep,
  first_of_rows, any_of, All, Bool-cases, inl, inr,
}
use hivewiki_web.Base.Text.{Text}
use hivewiki_web.Core.Models.{Post, Comment}
use hivewiki_web.Accounts.Models.{Notification, NotificationTargetType, post, comment}
use hivewiki_web.Accounts.Notifications.Targets.{
  post_in, comment_in, with_posts, is_on_post, is_on_comment, add_id, target_ids, title_or_empty,
  comment_title, comment_url, target_url, target_title, attach_each, attach_notification_targets,
}

-- A row that the query does not filter out is found as in the whole table.
first_of_rows-keep :
    {A : Type 0} (q p : A → Bool) (rows : List A)
    → ((a : A) → p a ≡ true → q a ≡ true)
    → first_of_rows p (keep q rows) ≡ first_of_rows p rows
first_of_rows-keep q p [] h = refl
first_of_rows-keep q p (a ∷ rows) h =
    let ih = first_of_rows-keep q p rows h in
    elim (Bool-cases (p a)) [
      | inl e ↦ rw (h a e, e)
      | inr e ↦ elim (Bool-cases (q a)) [ inl f ↦ rw (f, e) ih | inr f ↦ rw (f, e) ih ]
    ]

eq-of-== : (a b : ℕ) → (a == b) ≡ true → a ≡ b
eq-of-== a b h = ground arith

-- The ids hold the target, if it is of the type.
abbrev Covers : (Option NotificationTargetType → Bool) → List ℕ → Notification → Type 0
Covers is_on ids n =
    (id : ℕ) → is_on n.target_type ≡ true → n.target_id ≡ some id → any_of (λ i. i == id) ids ≡ true

any_of-add_id :
    (b : Bool) (o : Option ℕ) (id : ℕ) (ids : List ℕ)
    → any_of (λ i. i == id) ids ≡ true
    → any_of (λ i. i == id) (add_id b o ids) ≡ true
any_of-add_id true (some j) id ids h = ground arith
any_of-add_id true none id ids h = h
any_of-add_id false (some j) id ids h = h
any_of-add_id false none id ids h = h

any_of-added : (id : ℕ) (ids : List ℕ) → any_of (λ i. i == id) (add_id true (some id) ids) ≡ true
any_of-added id ids = ground arith

All-Covers :
    (is_on : Option NotificationTargetType → Bool) (ids : List ℕ) (ns : List Notification)
    → ((id : ℕ)
        → any_of (λ i. i == id) (target_ids is_on ns) ≡ true
        → any_of (λ i. i == id) ids ≡ true)
    → All (Covers is_on ids) ns
unfolding target_ids
All-Covers is_on ids [] sub = tt
All-Covers is_on ids (n ∷ ns) sub =
    let rest = target_ids is_on ns in
    (
      λ id on is_id. sub id (rw (on, is_id) (any_of-added id rest)),
      All-Covers is_on ids ns
          (λ id h. sub id (any_of-add_id (is_on n.target_type) n.target_id id rest h)),
    )

post_in-keep :
    (ids : List ℕ) (id : ℕ) (posts : List Post)
    → any_of (λ i. i == id) ids ≡ true
    → post_in id (keep (λ p. any_of (λ i. i == p.id) ids) posts) ≡ post_in id posts
post_in-keep ids id posts h =
    first_of_rows-keep (λ p. any_of (λ i. i == p.id) ids) (λ p. p.id == id) posts
      (λ p e. rw (eq-of-== p.id id e) h)

comment_in-keep :
    (ids : List ℕ) (id : ℕ) (rows : List (Comment × Post))
    → any_of (λ i. i == id) ids ≡ true
    → comment_in id (keep (λ c. any_of (λ i. i == c.0.id) ids) rows) ≡ comment_in id rows
comment_in-keep ids id rows h =
    first_of_rows-keep (λ c. any_of (λ i. i == c.0.id) ids) (λ c. c.0.id == id) rows
      (λ c e. rw (eq-of-== c.0.id id e) h)

module _ (uuid_text : ℕ → Text) (community_detail_url : ℕ → Text)
    (post_ids comment_ids : List ℕ) where
  abbrev kept_posts : List Post → List Post
  kept_posts = keep (λ p. any_of (λ i. i == p.id) post_ids)

  abbrev kept_comments : List (Comment × Post) → List (Comment × Post)
  kept_comments = keep (λ c. any_of (λ i. i == c.0.id) comment_ids)

  target_url-keep :
      (n : Notification) (type : Option NotificationTargetType) (o : Option ℕ)
      (rows : List (Comment × Post))
      → n.target_type ≡ type
      → n.target_id ≡ o
      → Covers is_on_comment comment_ids n
      → target_url uuid_text community_detail_url type o (kept_comments rows)
        ≡ target_url uuid_text community_detail_url type o rows
  unfolding target_url
  target_url-keep n type none rows t i h = refl
  target_url-keep n none (some id) rows t i h = refl
  target_url-keep n (some post) (some id) rows t i h = refl
  target_url-keep n (some comment) (some id) rows t i h =
      ap (comment_url uuid_text community_detail_url)
        (comment_in-keep comment_ids id rows (h id (rw t) i))

  target_title-keep :
      (n : Notification) (type : Option NotificationTargetType) (o : Option ℕ) (posts : List Post)
      (rows : List (Comment × Post))
      → n.target_type ≡ type
      → n.target_id ≡ o
      → Covers is_on_post post_ids n
      → Covers is_on_comment comment_ids n
      → target_title uuid_text community_detail_url type o (kept_posts posts) (kept_comments rows)
        ≡ target_title uuid_text community_detail_url type o posts rows
  unfolding target_title
  target_title-keep n type none posts rows t i h k = refl
  target_title-keep n none (some id) posts rows t i h k = refl
  target_title-keep n (some post) (some id) posts rows t i h k =
      ap title_or_empty (post_in-keep post_ids id posts (h id (rw t) i))
  target_title-keep n (some comment) (some id) posts rows t i h k =
      ap comment_title (comment_in-keep comment_ids id rows (k id (rw t) i))

  attach_each-keep :
      (posts : List Post) (rows : List (Comment × Post)) (ns : List Notification)
      → All (Covers is_on_post post_ids) ns
      → All (Covers is_on_comment comment_ids) ns
      → attach_each uuid_text community_detail_url (kept_posts posts) (kept_comments rows) ns
        ≡ attach_each uuid_text community_detail_url posts rows ns
  unfolding attach_each
  attach_each-keep posts rows [] h k = refl
  attach_each-keep posts rows (n ∷ ns) (hn, h) (kn, k) = rw (
    target_url-keep n n.target_type n.target_id rows refl refl kn,
    target_title-keep n n.target_type n.target_id posts rows refl refl hn kn,
    attach_each-keep posts rows ns h k,
  )

-- The targets of a page of notifications, read with one query for the posts and one for the comments,
-- are those that a look into the whole tables gives for each notification by itself.
pub attach_notification_targets-eq-each :
    (uuid_text community_detail_url : ℕ → Text) (posts : List Post) (comments : List Comment)
    (ns : List Notification)
    → attach_notification_targets uuid_text community_detail_url posts comments ns
      ≡ attach_each uuid_text community_detail_url posts (with_posts posts comments) ns
unfolding attach_notification_targets
attach_notification_targets-eq-each uuid_text community_detail_url posts comments ns =
    attach_each-keep uuid_text community_detail_url (target_ids is_on_post ns)
      (target_ids is_on_comment ns) posts (with_posts posts comments) ns
      (All-Covers is_on_post (target_ids is_on_post ns) ns (λ id h. h))
      (All-Covers is_on_comment (target_ids is_on_comment ns) ns (λ id h. h))
