-- ===== src/Core/Reactions/Marks.antt =====
-- A toggle of a mark: what it does to every mark.
use Prim.{tt}
use hivewiki_web.Base.{
  ℕ, ◌≡◌, refl, sym, Bool, true, false, not, ◌&&◌, List, [], ◌∷◌, arith, ◌==◌, if◌then◌else◌,
  any_of, discard, any_of-discard, Bool-cases, inl, inr,
}
use hivewiki_web.Core.Reactions.{Mark, is_mark, toggle_mark}

-- No user has two marks on a target.
abbrev pub IsOncePerUser : List Mark → Type 0
IsOncePerUser [] = Unit
IsOncePerUser (m ∷ ms) = (any_of (is_mark m.target_id m.user_id) ms ≡ false) × IsOncePerUser ms

any_of-others :
    (p u q w : ℕ) (ms : List Mark)
    → (p == q && u == w) ≡ false
    → any_of (is_mark q w) (discard (is_mark p u) ms) ≡ any_of (is_mark q w) ms
any_of-others p u q w [] h = refl
any_of-others p u q w (m ∷ ms) h =
    let ih = any_of-others p u q w ms h in
    elim (Bool-cases (is_mark p u m)) [
      | inl e ↦ let apart = mark_apart p u q w m h e in rw (e, apart) ih
      | inr e ↦ rw (e, ih)
    ]
  where
    mark_apart :
        (p u q w : ℕ) (m : Mark)
        → (p == q && u == w) ≡ false
        → is_mark p u m ≡ true
        → is_mark q w m ≡ false
    mark_apart p u q w m h e = ground arith

any_of-discard-false :
    (r q : Mark → Bool) (ms : List Mark) → any_of r ms ≡ false → any_of r (discard q ms) ≡ false
any_of-discard-false r q [] h = refl
any_of-discard-false r q (m ∷ ms) h = ground (arith, any_of-discard-false r q ms)

IsOncePerUser-discard :
    (q : Mark → Bool) (ms : List Mark) → IsOncePerUser ms → IsOncePerUser (discard q ms)
IsOncePerUser-discard q [] h = tt
IsOncePerUser-discard q (m ∷ ms) (n, h) =
    let rest = IsOncePerUser-discard q ms h in
    elim (Bool-cases (q m)) [
      | inl e ↦ rw e rest
      | inr e ↦ rw e (any_of-discard-false (is_mark m.target_id m.user_id) q ms n, rest)
    ]

eq-of-both : (p q u w : ℕ) → (p == q && u == w) ≡ true → (p ≡ q) × (u ≡ w)
eq-of-both p q u w h = (ground arith, ground arith)

pub any_of-toggle_mark :
    (now p u q w : ℕ) (ms : List Mark)
    → any_of (is_mark q w) (toggle_mark now p u ms)
      ≡ (if p == q && u == w then not (any_of (is_mark q w) ms) else any_of (is_mark q w) ms)
unfolding toggle_mark
any_of-toggle_mark now p u q w ms = elim (Bool-cases (any_of (is_mark p u) ms)) [
  | inl e ↦ elim (Bool-cases (p == q && u == w)) [
    | inl f ↦
        let (same_p, same_u) = eq-of-both p q u w f in
        rw (toggle_mark, e, f, sym same_p, sym same_u, any_of-discard (is_mark p u) ms, e)
    | inr f ↦ rw (toggle_mark, e, f, any_of-others p u q w ms f)
  ]
  | inr e ↦ elim (Bool-cases (p == q && u == w)) [
    | inl f ↦
        let (same_p, same_u) = eq-of-both p q u w f in
        rw (toggle_mark, e, f, sym same_p, sym same_u, e)
    | inr f ↦ rw (toggle_mark, e, f)
  ]
]

pub IsOncePerUser-toggle_mark :
    (now p u : ℕ) (ms : List Mark) → IsOncePerUser ms → IsOncePerUser (toggle_mark now p u ms)
unfolding toggle_mark
IsOncePerUser-toggle_mark now p u ms h = elim (Bool-cases (any_of (is_mark p u) ms)) [
  | inl e ↦ rw (toggle_mark, e) (IsOncePerUser-discard (is_mark p u) ms h)
  | inr e ↦ rw (toggle_mark, e) (e, h)
]
