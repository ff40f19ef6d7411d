-- ===== src/Core/Comments/Tree.antt =====
-- The tree of comments, which one query gives, against a query for each comment.
use hivewiki_web.Base.{
  ℕ, ◌≡◌, refl, sym, ap, Bool, true, false, Option, none, some, List, [], ◌∷◌, ◌++◌, map, ◌==◌,
  if◌then◌else◌, keep, append_nil, arith, Bool-cases, inl, inr,
}
use hivewiki_web.Core.Models.{Comment}
use hivewiki_web.Accounts.Notifications.Notify.{same_user}
use hivewiki_web.Core.Comments.{
  append_child, children_in, sort_comment, sorted_comments, with_children, get_comment_tree,
  is_reply_to,
}

abbrev pub is_root : Option ℕ → Bool
is_root none = true
is_root (some id) = false

add_last : (a : List Comment) (x : Comment) (b : List Comment) → (a ++ x ∷ []) ++ b ≡ a ++ x ∷ b
add_last [] x b = refl
add_last (y ∷ a) x b = ap (λ (t : List Comment). y ∷ t) (add_last a x b)

children_in-append_child :
    (id j : ℕ) (c : Comment) (d : List (ℕ × List Comment))
    → children_in j (append_child id c d)
      ≡ (if id == j then children_in j d ++ c ∷ [] else children_in j d)
children_in-append_child id j c [] = ground arith
children_in-append_child id j c ((k, cs) ∷ d) = ground (arith, children_in-append_child id j c d)

children_in-sort_comment :
    (o : Option ℕ) (j : ℕ) (c : Comment) (done : List Comment × List (ℕ × List Comment))
    → children_in j (sort_comment o c done).1
      ≡ (if same_user o (some j) then children_in j done.1 ++ c ∷ [] else children_in j done.1)
children_in-sort_comment none j c done = refl
children_in-sort_comment (some id) j c done = children_in-append_child id j c done.1

roots-sort_comment :
    (o : Option ℕ) (c : Comment) (done : List Comment × List (ℕ × List Comment))
    → (sort_comment o c done).0 ≡ (if is_root o then done.0 ++ c ∷ [] else done.0)
roots-sort_comment none c done = refl
roots-sort_comment (some id) c done = refl

children_in-sorted_comments :
    (cs : List Comment) (j : ℕ) (done : List Comment × List (ℕ × List Comment))
    → children_in j (sorted_comments cs done).1 ≡ children_in j done.1 ++ keep (is_reply_to j) cs
unfolding sorted_comments
children_in-sorted_comments [] j done = sym (append_nil (children_in j done.1))
children_in-sorted_comments (c ∷ cs) j done =
    let step = children_in-sort_comment c.parent_comment_id j c done in
    let rest = children_in-sorted_comments cs j (sort_comment c.parent_comment_id c done) in
    elim (Bool-cases (same_user c.parent_comment_id (some j))) [
      | inl e ↦ rw (e, rest, step, e) (add_last (children_in j done.1) c (keep (is_reply_to j) cs))
      | inr e ↦ rw (e, rest, step, e) refl
    ]

roots-sorted_comments :
    (cs : List Comment) (done : List Comment × List (ℕ × List Comment))
    → (sorted_comments cs done).0 ≡ done.0 ++ keep (λ c. is_root c.parent_comment_id) cs
unfolding sorted_comments
roots-sorted_comments [] done = sym (append_nil done.0)
roots-sorted_comments (c ∷ cs) done =
    let step = roots-sort_comment c.parent_comment_id c done in
    let rest = roots-sorted_comments cs (sort_comment c.parent_comment_id c done) in
    elim (Bool-cases (is_root c.parent_comment_id)) [
      | inl e ↦
          rw (e, rest, step, e) (add_last done.0 c (keep (λ c. is_root c.parent_comment_id) cs))
      | inr e ↦ rw (e, rest, step, e) refl
    ]

with_children-sorted :
    (rows cs : List Comment)
    → with_children rows (sorted_comments cs ([], [])).1
      ≡ map (λ c. (c, keep (is_reply_to c.id) cs)) rows
unfolding with_children
with_children-sorted [] cs = refl
with_children-sorted (c ∷ rows) cs =
    rw (children_in-sorted_comments cs c.id ([], []), with_children-sorted rows cs) refl

-- The tree that is built from one query has the comments without a parent at its roots, and under each
-- comment those that answer it, all in the order of the query.
pub get_comment_tree-eq-keep :
    (comments : List Comment)
    → get_comment_tree comments ≡ (
      keep (λ c. is_root c.parent_comment_id) comments,
      map (λ c. (c, keep (is_reply_to c.id) comments)) comments,
    )
unfolding get_comment_tree
get_comment_tree-eq-keep comments =
    rw (roots-sorted_comments comments ([], []), with_children-sorted comments comments) refl
