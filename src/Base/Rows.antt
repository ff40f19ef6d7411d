-- ===== src/Base/Rows.antt =====
-- The rows of a database table, under Boolean conditions: what the ORM's `filter`, `exists`,
-- `count`, `first`, `update` and `delete` return for a condition on one row.
use Prim.Native.Nat.{ℕ, suc}
use mathlib.Core.Path.{◌≡◌, refl}
use mathlib.Core.Bool.{Bool, true, false, ◌||◌}
use mathlib.Core.Option.{Option, none, some}
use mathlib.Core.List.{List, [], ◌∷◌}
use native.Mathlib.Omega.{arith}
use mathlib.Core.Logic.{inl, inr}
use hivewiki_web.Base.Tests.{if◌then◌else◌, Bool-cases}

module _ {A : Type 0} where
  -- `.filter(p)`
  abbrev pub keep : (A → Bool) → List A → List A
  keep p [] = []
  keep p (x ∷ xs) = if p x then x ∷ keep p xs else keep p xs

  -- `.filter(p).delete()`
  abbrev pub discard : (A → Bool) → List A → List A
  discard p [] = []
  discard p (x ∷ xs) = if p x then discard p xs else x ∷ discard p xs

  -- `.filter(p).exists()`
  abbrev pub any_of : (A → Bool) → List A → Bool
  any_of p [] = false
  any_of p (x ∷ xs) = p x || any_of p xs

  -- `.filter(p).first()`
  abbrev pub first_of_rows : (A → Bool) → List A → Option A
  first_of_rows p [] = none
  first_of_rows p (x ∷ xs) = if p x then some x else first_of_rows p xs

  -- `.filter(p).count()`
  abbrev pub count_of : (A → Bool) → List A → ℕ
  count_of p [] = 0
  count_of p (x ∷ xs) = if p x then suc (count_of p xs) else count_of p xs

  -- `.filter(p).update(f)`
  abbrev pub update_of : (A → Bool) → (A → A) → List A → List A
  update_of p f [] = []
  update_of p f (x ∷ xs) = (if p x then f x else x) ∷ update_of p f xs

  pub any_of-discard : (p : A → Bool) (xs : List A) → any_of p (discard p xs) ≡ false
  any_of-discard p [] = refl
  any_of-discard p (x ∷ xs) = ground (arith, any_of-discard p xs)

  -- No row passes the test: neither the first one nor the rest.
  pub first_apart :
      (q : A → Bool) (a : A) (rows : List A)
      → first_of_rows q (a ∷ rows) ≡ none
      → (q a ≡ false) × (first_of_rows q rows ≡ none)
  first_apart q a rows h = elim (Bool-cases (q a)) [
    | inl e ↦ let no = rw e at h in cc (no)
    | inr e ↦ (e, let rest = rw e at h in rest)
  ]

  pub any_apart :
      (q : A → Bool) (a : A) (rows : List A)
      → any_of q (a ∷ rows) ≡ false
      → (q a ≡ false) × (any_of q rows ≡ false)
  any_apart q a rows h = elim (Bool-cases (q a)) [
    | inl e ↦ let no = rw e at h in cc (no)
    | inr e ↦ (e, let rest = rw e at h in rest)
  ]

  -- The first row that passes the test passes it.
  pub first_of_rows-holds :
      (p : A → Bool) (xs : List A) (x : A) → first_of_rows p xs ≡ some x → p x ≡ true
  first_of_rows-holds p [] x h = cc (h)
  first_of_rows-holds p (y ∷ xs) x h = elim (Bool-cases (p y)) [
    | inl e ↦ let same : some y ≡ some x = rw e at h in let eq : y ≡ x = cc (same) in rw (← eq) e
    | inr e ↦ first_of_rows-holds p xs x (let rest = rw e at h in rest)
  ]
