-- ===== src/Core/Reactions/Toggles.antt =====
-- The toggles of likes and bookmarks as requests.
use hivewiki_web.Base.{
  ℕ, ◌≡◌, refl, Bool, true, false, not, ◌&&◌, Option, none, some, List, [], ◌∷◌, arith, ◌==◌,
  if◌then◌else◌, any_of, is_some, Option-cases, inl, inr,
}
use hivewiki_web.Base.Text.{Text, text_eq}
use hivewiki_web.Django.Cache.{Cache}
use hivewiki_web.Core.Models.{Post, Comment}
use hivewiki_web.Accounts.Models.{HiveUser}
use hivewiki_web.Accounts.Notifications.{Inbox}
use hivewiki_web.Core.Reactions.{
  Mark, is_mark, visible_post, comment_on, toggle_mark, community_post_bookmark_toggle,
  community_post_like_toggle, toggle_comment, community_comment_like_toggle,
}
use hivewiki_web.Core.Reactions.Marks.{IsOncePerUser, any_of-toggle_mark, IsOncePerUser-toggle_mark}

-- The marks of one user on one target change, and only if the target is found, and no user comes to
-- have two marks on a target.
abbrev pub IsToggle : Bool → ℕ → ℕ → List Mark → List Mark → Type 0
IsToggle found target user before after =
    ((q w : ℕ)
      → any_of (is_mark q w) after ≡ (
          if found && (target == q && user == w)
          then not (any_of (is_mark q w) before)
          else any_of (is_mark q w) before))
    × (IsOncePerUser before → IsOncePerUser after)

toggle_mark-IsToggle :
    (now target user : ℕ) (ms : List Mark)
    → IsToggle true target user ms (toggle_mark now target user ms)
toggle_mark-IsToggle now target user ms =
    (λ q w. any_of-toggle_mark now target user q w ms, IsOncePerUser-toggle_mark now target user ms)

unfound-IsToggle : (target user : ℕ) (ms : List Mark) → IsToggle false target user ms ms
unfound-IsToggle target user ms = (λ q w. refl, λ once. once)

id-visible_post :
    (user post_id : ℕ) (posts : List Post) (p : Post)
    → visible_post user post_id posts ≡ some p
    → p.id ≡ post_id
id-visible_post user post_id [] p h = cc (h)
id-visible_post user post_id (v ∷ posts) p h = ground (arith, id-visible_post user post_id posts p)

id-comment_on :
    (post_id comment_id : ℕ) (comments : List Comment) (c : Comment)
    → comment_on post_id comment_id comments ≡ some c
    → c.id ≡ comment_id
id-comment_on post_id comment_id [] c h = cc (h)
id-comment_on post_id comment_id (v ∷ comments) c h =
    ground (arith, id-comment_on post_id comment_id comments c)

-- A bookmark request for a post that the user does not see changes nothing; for one that the user sees
-- it turns the user's bookmark of that post and no other mark, and never doubles one.
pub community_post_bookmark_toggle_lem :
    (now : ℕ) (actor : HiveUser) (post_id : ℕ) (posts : List Post) (marks : List Mark)
    → IsToggle
        (is_some (visible_post actor.id post_id posts))
        post_id
        actor.id
        marks
        ((community_post_bookmark_toggle now actor post_id posts marks).1)
unfolding community_post_bookmark_toggle
community_post_bookmark_toggle_lem now actor post_id posts marks =
    elim (Option-cases (visible_post actor.id post_id posts)) [
      | inl e ↦ rw (community_post_bookmark_toggle, e) (unfound-IsToggle post_id actor.id marks)
      | inr (p, e) ↦
          rw (community_post_bookmark_toggle, e, id-visible_post actor.id post_id posts p e)
            (toggle_mark-IsToggle now post_id actor.id marks)
    ]

-- The comment that a request names, if the user sees its post.
abbrev pub comment_of : HiveUser → ℕ → ℕ → List Post → List Comment → Option Comment
comment_of actor post_id comment_id posts comments = elim (visible_post actor.id post_id posts) [
  | none ↦ none
  | some p ↦ comment_on p.id comment_id comments
]

module _ (uuid_text : ℕ → Text) (sha256_hex : Text → Text) (cache : Cache Text ℕ text_eq)
    (new_id : ℕ → ℕ) where
  -- A like request for a post that the user does not see changes no like; for one that the user sees it
  -- turns the user's like of that post and no other, and never doubles one.
  pub community_post_like_toggle_lem :
      (now : ℕ) (actor : HiveUser) (post_id : ℕ) (posts : List Post) (marks : List Mark)
      (inbox : Inbox uuid_text sha256_hex cache)
      → IsToggle (is_some (visible_post actor.id post_id posts)) post_id actor.id marks (
          (community_post_like_toggle uuid_text sha256_hex cache new_id now actor post_id posts
            (marks, inbox)).1.0)
  unfolding community_post_like_toggle
  community_post_like_toggle_lem now actor post_id posts marks inbox =
      elim (Option-cases (visible_post actor.id post_id posts)) [
        | inl e ↦ rw (community_post_like_toggle, e) (unfound-IsToggle post_id actor.id marks)
        | inr (p, e) ↦
            rw (community_post_like_toggle, e, id-visible_post actor.id post_id posts p e)
              (toggle_mark-IsToggle now post_id actor.id marks)
      ]

  toggle_comment-IsToggle :
      (now : ℕ) (actor : HiveUser) (post_id comment_id : ℕ) (comments : List Comment)
      (marks : List Mark) (inbox : Inbox uuid_text sha256_hex cache)
      → IsToggle (is_some (comment_on post_id comment_id comments)) comment_id actor.id marks (
          (toggle_comment uuid_text sha256_hex cache new_id now actor
            (comment_on post_id comment_id comments)
            (marks, inbox)).1.0)
  unfolding toggle_comment
  toggle_comment-IsToggle now actor post_id comment_id comments marks inbox =
      elim (Option-cases (comment_on post_id comment_id comments)) [
        | inl e ↦ rw (toggle_comment, e) (unfound-IsToggle comment_id actor.id marks)
        | inr (c, e) ↦
            rw (toggle_comment, e, id-comment_on post_id comment_id comments c e)
              (toggle_mark-IsToggle now comment_id actor.id marks)
      ]

  -- A like request for a comment changes no like unless the comment is there, not deleted, and on a post
  -- that the user sees; then it turns the user's like of that comment and no other, and never doubles
  -- one.
  pub community_comment_like_toggle_lem :
      (now : ℕ) (actor : HiveUser) (post_id comment_id : ℕ) (posts : List Post)
      (comments : List Comment) (marks : List Mark) (inbox : Inbox uuid_text sha256_hex cache)
      → IsToggle
          (is_some (comment_of actor post_id comment_id posts comments))
          comment_id
          actor.id
          marks
          ((community_comment_like_toggle uuid_text sha256_hex cache new_id now actor post_id
            comment_id posts comments
            (marks, inbox)).1.0)
  unfolding community_comment_like_toggle
  community_comment_like_toggle_lem now actor post_id comment_id posts comments marks inbox =
      elim (Option-cases (visible_post actor.id post_id posts)) [
        | inl e ↦
            rw (community_comment_like_toggle, comment_of, e)
              (unfound-IsToggle comment_id actor.id marks)
        | inr (p, e) ↦
            rw (community_comment_like_toggle, comment_of, e)
              (toggle_comment-IsToggle now actor p.id comment_id comments marks inbox)
      ]
