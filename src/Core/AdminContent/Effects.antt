-- ===== src/Core/AdminContent/Effects.antt =====
-- What an action leaves of a post or a wiki page.
use Prim.{tt}
use hivewiki_web.Base.{
  subst, List, [], ◌∷◌, ◌==◌, All, first_of_rows, update_of, ℕ, ◌≡◌, Bool, true, Option, none, some,
  is_some, Result, ok, err, Bool-cases, Option-cases, inl, inr,
}
use hivewiki_web.Base.Text.{Text, codes, text_eq, strip}
use hivewiki_web.Core.Models.{Post}
use hivewiki_web.Accounts.Models.{HiveUser, is_admin}
use hivewiki_web.Core.AdminContent.{
  WikiDocument, published, archived, deleted, same_status, ContentError, apply_admin_post_action,
  apply_admin_wiki_action, respond, is_wiki_action, admin_wiki_action,
}

-- The row that a call saves; a call that raises saves none.
abbrev pub saved : {A : Type 0} → A → Result ContentError (Text × A) → A
saved a (err e) = a
saved a (ok (message, b)) = b

-- A post that is not deleted and is deleted at one time and restored at another is the post it was, but
-- for the time of the update.
pub restore-delete :
    (uuid_text : ℕ → Text) (now later : ℕ) (p : Post)
    → p.deleted_at ≡ none
    → saved p (
        apply_admin_post_action uuid_text later
          (codes "restore")
          (saved p (apply_admin_post_action uuid_text now (codes "delete") p)))
      ≡ record p { updated_at = later }
unfolding apply_admin_post_action text_eq
restore-delete uuid_text now later p kept = rw (apply_admin_post_action, kept)

-- A published page has a revision to show.
abbrev pub IsServable : WikiDocument → Type 0
IsServable d = same_status d.status published ≡ true → is_some d.current_revision_id ≡ true

IsServable-apply_admin_wiki_action :
    (now : ℕ) (action : Text) (d : WikiDocument)
    → IsServable d
    → IsServable (saved d (apply_admin_wiki_action now action d))
unfolding apply_admin_wiki_action
IsServable-apply_admin_wiki_action now action d h =
    elim (Bool-cases (text_eq action (codes "publish"))) [
      | inl e ↦ elim (Bool-cases (same_status d.status published)) [
        | inl f ↦ rw (apply_admin_wiki_action, e, f) h
        | inr f ↦ elim (Bool-cases (is_some d.current_revision_id)) [
          | inl g ↦ rw (apply_admin_wiki_action, e, f, g) (λ shown. g)
          | inr g ↦ rw (apply_admin_wiki_action, e, f, g) h
        ]
      ]
      | inr e ↦ elim (Bool-cases (text_eq action (codes "archive"))) [
        | inl f ↦ elim (Bool-cases (same_status d.status archived)) [
          | inl g ↦ rw (apply_admin_wiki_action, e, f, g) h
          | inr g ↦ rw (apply_admin_wiki_action, e, f, g) (λ shown. cc (shown))
        ]
        | inr f ↦ elim (Bool-cases (same_status d.status deleted)) [
          | inl g ↦ rw (apply_admin_wiki_action, e, f, g) h
          | inr g ↦ rw (apply_admin_wiki_action, e, f, g) (λ shown. cc (shown))
        ]
      ]
    ]

All-replaced :
    (q : WikiDocument → Bool) (e : WikiDocument) (docs : List WikiDocument)
    → IsServable e
    → All IsServable docs
    → All IsServable (update_of q (λ o. e) docs)
All-replaced q e [] h k = tt
All-replaced q e (d ∷ docs) h (s, k) = elim (Bool-cases (q d)) [
  | inl f ↦ rw f (h, All-replaced q e docs h k)
  | inr f ↦ rw f (s, All-replaced q e docs h k)
]

found-IsServable :
    (q : WikiDocument → Bool) (docs : List WikiDocument) (d : WikiDocument)
    → All IsServable docs
    → first_of_rows q docs ≡ some d
    → IsServable d
found-IsServable q [] d k h = cc (h)
found-IsServable q (e ∷ docs) d (s, k) h = elim (Bool-cases (q e)) [
  | inl f ↦ let found = rw f at h in let same : e ≡ d = cc (found) in subst IsServable same s
  | inr f ↦ let later = rw f at h in found-IsServable q docs d k later
]

respond-IsServable :
    (docs : List WikiDocument) (d : WikiDocument) (r : Result ContentError (Text × WikiDocument))
    → IsServable (saved d r)
    → All IsServable docs
    → All IsServable ((respond docs (λ e. update_of (λ o. o.id == d.id) (λ o. e) docs) r).1)
respond-IsServable docs d (err e) h k = k
respond-IsServable docs d (ok (message, e)) h k = All-replaced (λ o. o.id == d.id) e docs h k

-- No request of an admin action on a wiki page, by whomever and with whatever text, publishes a page
-- without a revision: if every published page has one before, every published page has one after.
pub admin_wiki_action-IsServable :
    (now : ℕ) (current : Option HiveUser) (wiki_id : ℕ) (action : Text) (docs : List WikiDocument)
    → All IsServable docs
    → All IsServable ((admin_wiki_action now current wiki_id action docs).1)
unfolding admin_wiki_action
admin_wiki_action-IsServable now none wiki_id action docs k = k
admin_wiki_action-IsServable now (some current) wiki_id action docs k =
    elim (Bool-cases (is_admin current.role)) [
      | inr a ↦ rw (admin_wiki_action, a) k
      | inl a ↦ elim (Option-cases (first_of_rows (λ d. d.id == wiki_id) docs)) [
        | inl e ↦ rw (admin_wiki_action, a, e) k
        | inr (d, e) ↦ elim (Bool-cases (is_wiki_action (strip action))) [
          | inr f ↦ rw (admin_wiki_action, a, e, f) k
          | inl f ↦
              let one = found-IsServable (λ d. d.id == wiki_id) docs d k e in
              rw (admin_wiki_action, a, e, f)
                (respond-IsServable docs d (apply_admin_wiki_action now (strip action) d)
                  (IsServable-apply_admin_wiki_action now (strip action) d one) k)
        ]
      ]
    ]
