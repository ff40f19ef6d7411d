-- ===== src/Core/CommunityContent/Excerpt.antt =====
-- The excerpt of a post: its length, and that it is one line.
use Prim.{tt}
use hivewiki_web.Base.{
  ℕ, zero, suc, ◌-◌, ◌≤◌, ◌≡◌, refl, subst, Bool, true, false, [], ◌∷◌, ◌++◌, arith, leb, length,
  take, All, length-append, length-take, Bool-cases, inl, inr,
}
use hivewiki_web.Base.Text.{Text, codes, is_space, strip, rstrip, rstrip_onto, length-rstrip-le}
use hivewiki_web.Core.CommunityContent.{
  collapse, normalize_line, plain_text, excerpt_of, extract_post_render_parts,
  extract_post_title_and_body, or_text, build_post_excerpt,
}

module _ (P : ℕ → Type 0) where
  All-append : (s t : Text) → All P s → All P t → All P (s ++ t)
  All-append [] t h k = k
  All-append (c ∷ s) t (p, h) k = (p, All-append s t h k)

  All-take : (n : ℕ) (s : Text) → All P s → All P (take n s)
  All-take zero s h = tt
  All-take (suc n) [] h = tt
  All-take (suc n) (c ∷ s) (p, h) = (p, All-take n s h)

  All-rstrip_onto : (c : ℕ) (s : Text) → P c → All P s → All P (rstrip_onto c s)
  All-rstrip_onto c [] p h = elim (Bool-cases (is_space c)) [
    | inl e ↦ rw e tt
    | inr e ↦ rw e (p, tt)
  ]
  All-rstrip_onto c (d ∷ s) p h = (p, h)

  All-rstrip : (s : Text) → All P s → All P (rstrip s)
  unfolding rstrip
  All-rstrip [] h = tt
  All-rstrip (c ∷ s) (p, h) = All-rstrip_onto c (rstrip s) p (All-rstrip s h)

abbrev pub IsSpaceBlank : ℕ → Type 0
IsSpaceBlank c = is_space c ≡ true → c ≡ b' '

ellipsis_visible : IsSpaceBlank 8230
unfolding is_space
ellipsis_visible h = cc

-- Every space in the text is U+0020.
abbrev pub IsOneLine : Text → Type 0
IsOneLine = All IsSpaceBlank

IsOneLine-collapse : (inside : Bool) (s : Text) → IsOneLine (collapse is_space inside s)
unfolding collapse
IsOneLine-collapse inside [] = tt
IsOneLine-collapse inside (c ∷ s) =
    let rest = IsOneLine-collapse (is_space c) s in
    elim (Bool-cases (is_space c)) [
      | inl e ↦ elim (Bool-cases inside) [
        | inl i ↦ rw (e, i) (subst (λ b. IsOneLine (collapse is_space b s)) e rest)
        | inr i ↦ rw (e, i) (λ h. refl, subst (λ b. IsOneLine (collapse is_space b s)) e rest)
      ]
      | inr e ↦ rw e (λ h. cc, subst (λ b. IsOneLine (collapse is_space b s)) e rest)
    ]

length_le : (a b : ℕ) → leb a b ≡ true → a ≤ b
length_le a b h = ground arith

length-excerpt_of-le : (n : ℕ) (s : Text) → 1 ≤ n → length (excerpt_of n s) ≤ n
unfolding excerpt_of
length-excerpt_of-le n s pos = elim (Bool-cases (leb (length s) n)) [
  | inl e ↦ rw e (omega (arith, length_le (length s) n e))
  | inr e ↦
      rw (e, length-append (rstrip (take (n - 1) s)) (codes "…"))
        (omega (arith, length-rstrip-le (take (n - 1) s), length-take (n - 1) s))
]

IsOneLine-excerpt_of : (n : ℕ) (s : Text) → IsOneLine s → IsOneLine (excerpt_of n s)
unfolding excerpt_of
IsOneLine-excerpt_of n s h = elim (Bool-cases (leb (length s) n)) [
  | inl e ↦ rw e h
  | inr e ↦ rw e (
      All-append IsSpaceBlank (rstrip (take (n - 1) s)) (codes "…")
        (All-rstrip IsSpaceBlank (take (n - 1) s) (All-take IsSpaceBlank (n - 1) s h))
        (ellipsis_visible, tt))
]

-- For a positive limit, the excerpt of any content is no longer than the limit, and every space in it
-- is U+0020: it has no line end and no tab.
pub build_post_excerpt_lem :
    (n : ℕ) (content : Text)
    → 1 ≤ n
    → (length (build_post_excerpt n content) ≤ n) × IsOneLine (build_post_excerpt n content)
unfolding build_post_excerpt extract_post_render_parts normalize_line
build_post_excerpt_lem n content pos =
    let body = or_text (extract_post_title_and_body content).1 (strip content) in
    (
      length-excerpt_of-le n (normalize_line (plain_text body)) pos,
      IsOneLine-excerpt_of n (normalize_line (plain_text body))
          (IsOneLine-collapse false (strip (plain_text body))),
    )
