-- ===== src/Core/Comments/Ancestors.antt =====
-- The way from a comment to its first ancestor ends.
use hivewiki_web.Base.{
  ℕ, zero, suc, ◌≤◌, ◌<◌, ◌≡◌, refl, subst, true, false, ◌&&◌, Option, none, some, List, [], ◌∷◌,
  ◌==◌, if◌then◌else◌, length, any_of, arith, Bool-cases, Option-cases, inl, inr,
}
use hivewiki_web.Core.Models.{Comment}
use hivewiki_web.Core.Reactions.{is_kept}
use hivewiki_web.Core.Comments.{parent_of, ancestors_from, get_comment_ancestor_ids}
use hivewiki_web.Core.Comments.Threads.{HasParent, IsThreaded}

-- The place of a comment, counted from the oldest one; 0 if there is none with that id.
rank : ℕ → List Comment → ℕ
rank id [] = 0
rank id (c ∷ cs) = if c.id == id then suc (length cs) else rank id cs

rank-le : (id : ℕ) (cs : List Comment) → rank id cs ≤ length cs
unfolding rank
rank-le id [] = omega arith
rank-le id (c ∷ cs) = ground (arith, rank-le id cs)

any_of-parent :
    (o : Option ℕ) (id post_id : ℕ) (cs : List Comment)
    → o ≡ some id
    → HasParent o post_id cs
    → any_of (λ d. d.id == id) cs ≡ true
any_of-parent none id post_id cs e h = cc (e)
any_of-parent (some p) id post_id [] e h = cc (h)
any_of-parent (some p) id post_id (c ∷ cs) e h =
    let same : p ≡ id = cc (e) in
    elim (Bool-cases (c.id == id)) [
      | inl f ↦ rw f refl
      | inr f ↦
          let rest = any_of-parent (some p) id post_id cs e (ground (arith, same)) in rw f rest
    ]

any_of-parent_of :
    (post_id id p : ℕ) (cs : List Comment)
    → IsThreaded cs
    → parent_of post_id id cs ≡ some p
    → any_of (λ d. d.id == p) cs ≡ true
unfolding parent_of
any_of-parent_of post_id id p [] h e = cc (e)
any_of-parent_of post_id id p (c ∷ cs) (fresh, parent, h) e =
    elim (Bool-cases (c.post_id == post_id && is_kept c.deleted_at && c.id == id)) [
      | inl f ↦
          let is_parent : c.parent_comment_id ≡ some p = rw (parent_of, f) at e in
          let there = any_of-parent c.parent_comment_id p c.post_id cs is_parent parent in
          ground (arith, there)
      | inr f ↦
          let later : parent_of post_id id cs ≡ some p = rw (parent_of, f) at e in
          let there = any_of-parent_of post_id id p cs h later in ground (arith, there)
    ]

apart :
    (a b : ℕ) (cs : List Comment)
    → any_of (λ d. d.id == a) cs ≡ false
    → any_of (λ d. d.id == b) cs ≡ true
    → (a == b) ≡ false
apart a b cs h k = elim (Bool-cases (a == b)) [
  | inl e ↦
      let same : a ≡ b = ground arith in
      let both : any_of (λ d. d.id == b) cs ≡ false = rw same at h in cc (both, k)
  | inr e ↦ e
]

-- A parent is older.
rank-parent_of :
    (post_id id p : ℕ) (cs : List Comment)
    → IsThreaded cs
    → parent_of post_id id cs ≡ some p
    → rank p cs < rank id cs
unfolding parent_of rank
rank-parent_of post_id id p [] h e = cc (e)
rank-parent_of post_id id p (c ∷ cs) (fresh, parent, h) e =
    let older = rank-le p cs in
    elim (Bool-cases (c.post_id == post_id && is_kept c.deleted_at && c.id == id)) [
      | inl f ↦
          let is_parent : c.parent_comment_id ≡ some p = rw (parent_of, f) at e in
          let other =
            apart c.id p cs fresh
              (any_of-parent c.parent_comment_id p c.post_id cs is_parent parent) in
          let this : (c.id == id) ≡ true = ground arith in rw (rank, other, this) (omega arith)
      | inr f ↦
          let later : parent_of post_id id cs ≡ some p = rw (parent_of, f) at e in
          let other = apart c.id p cs fresh (any_of-parent_of post_id id p cs h later) in
          let ih = rank-parent_of post_id id p cs h later in
          elim (Bool-cases (c.id == id)) [
            | inl g ↦ rw (rank, other, g) (omega arith)
            | inr g ↦ rw (rank, other, g) ih
          ]
    ]

ancestors_from-some :
    (fuel post_id id : ℕ) (cs : List Comment)
    → IsThreaded cs
    → suc (rank id cs) < fuel
    → (ids : List ℕ) × (ancestors_from fuel post_id (some id) cs ≡ some ids)
unfolding ancestors_from
ancestors_from-some zero post_id id cs h lt = absurd (omega arith)
ancestors_from-some (suc zero) post_id id cs h lt = absurd (omega arith)
ancestors_from-some (suc (suc fuel)) post_id id cs h lt =
    elim (Option-cases (parent_of post_id id cs)) [
      | inl e ↦ (id ∷ [], rw (ancestors_from, e) refl)
      | inr (p, e) ↦
          let older = rank-parent_of post_id id p cs h e in
          let (ids, f) = ancestors_from-some (suc fuel) post_id p cs h (omega arith) in
          (id ∷ ids, rw (ancestors_from, e, f) refl)
    ]

-- The ids contain the first one and, with each id, the parent's.
abbrev pub IsClosed : ℕ → List Comment → Option ℕ → List ℕ → Type 0
IsClosed post_id cs o ids =
    ((id : ℕ) → o ≡ some id → any_of (λ i. i == id) ids ≡ true)
    × ((a p : ℕ)
        → any_of (λ i. i == a) ids ≡ true
        → parent_of post_id a cs ≡ some p
        → any_of (λ i. i == p) ids ≡ true)

IsClosed-cons :
    (post_id id : ℕ) (cs : List Comment) (ids : List ℕ)
    → IsClosed post_id cs (parent_of post_id id cs) ids
    → IsClosed post_id cs (some id) (id ∷ ids)
IsClosed-cons post_id id cs ids (first, closed) = (
  λ i e. let same : id ≡ i = cc (e) in ground (arith, same),
  λ a p there e. elim (Bool-cases (id == a)) [
    | inl f ↦
        let same : id ≡ a = ground arith in
        let parent_there = first p (rw same e) in ground (arith, parent_there)
    | inr f ↦
        let later : any_of (λ i. i == a) ids ≡ true = rw f at there in
        let parent_there = closed a p later e in ground (arith, parent_there)
  ],
)

ancestors_from-IsClosed :
    (fuel post_id : ℕ) (o : Option ℕ) (cs : List Comment) (ids : List ℕ)
    → ancestors_from fuel post_id o cs ≡ some ids
    → IsClosed post_id cs o ids
unfolding ancestors_from
ancestors_from-IsClosed zero post_id o cs ids e = cc (e)
ancestors_from-IsClosed (suc fuel) post_id none cs ids e =
    let nothing : [] ≡ ids = cc (e) in
    rw (← nothing) (λ id absent. cc (absent), λ a p there. cc (there))
ancestors_from-IsClosed (suc fuel) post_id (some id) cs ids e =
    elim (Option-cases (ancestors_from fuel post_id (parent_of post_id id cs) cs)) [
      | inl f ↦ let missing = rw (ancestors_from, f) at e in cc (missing)
      | inr (more, f) ↦
          let both : some (id ∷ more) ≡ some ids = rw (ancestors_from, f) at e in
          let same : id ∷ more ≡ ids = cc (both) in
          subst (IsClosed post_id cs (some id)) same (
            IsClosed-cons post_id id cs more
              (ancestors_from-IsClosed fuel post_id (parent_of post_id id cs) cs more f))
    ]

-- If each comment answers an older one or none, the loop ends, and the ids that it collects contain the
-- comment that it starts from and, with each id, that of the parent on the post that is not deleted.
pub get_comment_ancestor_ids_total :
    (post_id id : ℕ) (cs : List Comment)
    → IsThreaded cs
    → (ids : List ℕ) × (get_comment_ancestor_ids post_id (some id) cs ≡ some ids)
      × IsClosed post_id cs (some id) ids
unfolding get_comment_ancestor_ids
get_comment_ancestor_ids_total post_id id cs h =
    let (ids, e) =
      ancestors_from-some (suc (suc (length cs))) post_id id cs h (omega (arith, rank-le id cs)) in
    (ids, e, ancestors_from-IsClosed (suc (suc (length cs))) post_id (some id) cs ids e)
