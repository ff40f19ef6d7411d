-- ===== src/Base/Pigeonhole.antt =====
-- Distinct values that all occur in a list are no more than the list is long.
use Prim.Native.Nat.{ℕ, zero, suc, ◌≤◌, ◌<◌}
use mathlib.Core.Path.{◌≡◌}
use mathlib.Core.Logic.{inl, inr}
use mathlib.Core.Bool.{Bool, true, false}
use mathlib.Core.List.{List, [], ◌∷◌}
use native.Mathlib.Omega.{arith}
use hivewiki_web.Base.Tests.{Bool-cases}
use hivewiki_web.Base.Lists.{length}
use hivewiki_web.Base.Rows.{any_of, discard}

length-discard-le : {A : Type 0} (q : A → Bool) (xs : List A) → length (discard q xs) ≤ length xs
length-discard-le q [] = omega arith
length-discard-le q (x ∷ xs) = ground (arith, length-discard-le q xs)

length-discard-lt :
    {A : Type 0} (q : A → Bool) (xs : List A)
    → any_of q xs ≡ true
    → length (discard q xs) < length xs
length-discard-lt q [] h = cc (h)
length-discard-lt q (x ∷ xs) h = ground (arith, length-discard-le q xs, length-discard-lt q xs)

module _ {A : Type 0} (same : A → A → Bool)
    (euclid : (a b c : A) → same a c ≡ true → same b c ≡ true → same a b ≡ true) where
  any_of-discard_other :
      (a b : A) (xs : List A)
      → same a b ≡ false
      → any_of (same a) xs ≡ true
      → any_of (same a) (discard (same b) xs) ≡ true
  any_of-discard_other a b [] h k = k
  any_of-discard_other a b (x ∷ xs) h k = elim (Bool-cases (same a x)) [
    | inl e ↦ elim (Bool-cases (same b x)) [
      | inl f ↦ let no = euclid a b x e f in cc (no, h)
      | inr f ↦ rw (f, e)
    ]
    | inr e ↦
        let ih = any_of-discard_other a b xs h (rw e at k) in
        elim (Bool-cases (same b x)) [ inl f ↦ rw f ih | inr f ↦ rw (f, e) ih ]
  ]

  -- `n` values, no two the same, that all occur in a list: it has `n` elements at least.
  pub pigeonhole :
      (n : ℕ) (f : ℕ → A) (xs : List A)
      → ((i : ℕ) → i < n → any_of (same (f i)) xs ≡ true)
      → ((i j : ℕ) → i < n → j < n → same (f i) (f j) ≡ true → i ≡ j)
      → n ≤ length xs
  pigeonhole zero f xs occurs apart = omega arith
  pigeonhole (suc n) f xs occurs apart =
      let shorter = length-discard-lt (same (f n)) xs (occurs n (omega arith)) in
      let ih =
        pigeonhole n f (discard (same (f n)) xs)
          (λ i lt. any_of-discard_other (f i) (f n) xs (unlike i lt) (occurs i (omega arith)))
          (λ i j li lj. apart i j (omega arith) (omega arith)) in
      omega arith
    where
      unlike : (i : ℕ) → i < n → same (f i) (f n) ≡ false
      unlike i lt = elim (Bool-cases (same (f i) (f n))) [
        | inl e ↦ let no = apart i n (omega arith) (omega arith) e in absurd (omega arith)
        | inr e ↦ e
      ]
