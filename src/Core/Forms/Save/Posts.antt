-- ===== src/Core/Forms/Save/Posts.antt =====
-- What saving a post leaves in the table of posts.
use hivewiki_web.Base.{
  ℕ, ◌≡◌, refl, ap, ◌∙◌, true, false, Option, none, some, List, [], ◌∷◌, ◌==◌, ==_refl, arith,
  first_of_rows, update_of, Bool-cases, inl, inr,
}
use hivewiki_web.Base.Text.{Text}
use hivewiki_web.Core.Models.{Post, PostStatus, sync_cached_content_fields}
use hivewiki_web.Core.Forms.Save.{edited_post, write_post}

-- `Post.objects.filter(id=id).first()`
abbrev pub post_by_id : ℕ → List Post → Option Post
post_by_id id = first_of_rows (λ p. p.id == id)

-- The post that is edited, if one is, is the row of its id.
abbrev pub IsRow : Option Post → List Post → Type 0
IsRow none posts = Unit
IsRow (some old) posts = post_by_id old.id posts ≡ some old

-- The primary key and the time of creation of the post that is saved.
abbrev pub key_of : ℕ → Option Post → ℕ
key_of id none = id
key_of id (some old) = old.id

abbrev pub created_of : ℕ → Option Post → ℕ
created_of now none = now
created_of now (some old) = old.created_at

module _ (id : ℕ) (f : Post → Post) (keeps : (p : Post) → (f p).id ≡ p.id) where
  updated_row :
      (posts : List Post) (p : Post)
      → post_by_id id posts ≡ some p
      → post_by_id id (update_of (λ q. q.id == id) f posts) ≡ some (f p)
  updated_row [] p h = cc (h)
  updated_row (q ∷ posts) p h = elim (Bool-cases (q.id == id)) [
    | inl e ↦
        let both : some q ≡ some p = rw e at h in
        let same : q ≡ p = cc (both) in
        let on : ((f q).id == id) ≡ true = ap (λ n. n == id) (keeps q) ∙ e in
        rw (e, on) (ap (λ (x : Post). some (f x)) same)
    | inr e ↦ rw (e, e) (updated_row posts p (let rest = rw e at h in rest))
  ]

  other_row :
      (other : ℕ) (posts : List Post)
      → (id == other) ≡ false
      → post_by_id other (update_of (λ q. q.id == id) f posts) ≡ post_by_id other posts
  other_row other [] apart = refl
  other_row other (q ∷ posts) apart =
      let ih = other_row other posts apart in
      elim (Bool-cases (q.id == id)) [
        | inl e ↦
            let off : (q.id == other) ≡ false = ground arith in
            let off' : ((f q).id == other) ≡ false = ap (λ n. n == other) (keeps q) ∙ off in
            rw (e, off, off') ih
        | inr e ↦ rw (e, ih) refl
      ]

-- The row of the saved post, and the rows of the others.
abbrev pub IsWritten : ℕ → ℕ → Option Post → PostStatus → List Post → Post → List Post → Type 0
IsWritten now id o status posts post posts' =
    (post.id ≡ key_of id o)
    × (post.status ≡ status)
    × (post.created_at ≡ created_of now o)
    × (post.updated_at ≡ now)
    × (post_by_id post.id posts' ≡ some post)
    × ((other : ℕ) → (post.id == other) ≡ false → post_by_id other posts' ≡ post_by_id other posts)

pub write_post-IsWritten :
    (now id author : ℕ) (content : Text) (status : PostStatus) (o : Option Post) (posts : List Post)
    → IsRow o posts
    → let (post, posts') = write_post now id author content status o posts in
      IsWritten now id o status posts post posts'
unfolding sync_cached_content_fields
write_post-IsWritten now id author content status none posts row =
    (refl, refl, refl, refl, rw (==_refl id) refl, λ other apart. rw apart refl)
write_post-IsWritten now id author content status (some old) posts row = (
  refl,
  refl,
  refl,
  refl,
  updated_row old.id (edited_post now author content status) (λ p. refl) posts old row,
  λ other apart.
      other_row old.id (edited_post now author content status) (λ p. refl) other posts apart,
)
