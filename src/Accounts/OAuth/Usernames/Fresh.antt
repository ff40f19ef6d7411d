-- ===== src/Accounts/OAuth/Usernames/Fresh.antt =====
-- The search for a name ends, with a name that no user has.
use hivewiki_web.Base.{
  ℕ, zero, suc, ◌+◌, ◌*◌, ◌≤◌, ◌<◌, ◌≡◌, refl, sym, ap, ◌∙◌, Bool, true, false, ◌&&◌, none, some,
  List, [], ◌∷◌, ◌++◌, map, ◌==◌, arith, any_of, length, All, take, length-append, append_cancel,
  Bool-cases, Option-cases, inl, inr,
}
use hivewiki_web.Base.Pigeonhole.{pigeonhole}
use hivewiki_web.Base.Text.{
  Text, text_eq, text_eq_join, text_eq_sym, IsDigit, IsDigit-decimal, eq_of_text_eq, decimal,
  eq_of_decimal,
}
use hivewiki_web.Accounts.Models.{HiveUser}
use hivewiki_web.Accounts.OAuth.Usernames.{
  normalized_username, prefix_length, candidate, iexact, is_taken_name, search_username,
  build_unique_username,
}

-- A folded name, and the length of the prefix in it.
abbrev Key : Type 0
Key = Text × ℕ

abbrev same_key : Key → Key → Bool
same_key (a, c) (b, d) = text_eq a b && c == d

same_key_euclid : (a b c : Key) → same_key a c ≡ true → same_key b c ≡ true → same_key a b ≡ true
same_key_euclid (a, i) (b, j) (c, k) p q = ground (arith, text_eq_join a b c)

-- The folded name with each prefix length up to `m`.
keys_of : Text → ℕ → List Key
keys_of name zero = []
keys_of name (suc m) = (name, suc m) ∷ keys_of name m

length-keys_of : (name : Text) (m : ℕ) → length (keys_of name m) ≡ m
unfolding keys_of
length-keys_of name zero = refl
length-keys_of name (suc m) = ap suc (length-keys_of name m)

any_of-keys_of :
    (a name : Text) (c m : ℕ)
    → text_eq a name ≡ true
    → 1 ≤ c
    → c ≤ m
    → any_of (same_key (a, c)) (keys_of name m) ≡ true
unfolding keys_of
any_of-keys_of a name c zero h l u = absurd (omega arith)
any_of-keys_of a name c (suc m) h l u = ground (arith, any_of-keys_of a name c m)

add_zero : (k : ℕ) → k + 0 ≡ k
add_zero k = omega arith

zero_add : (k : ℕ) → 0 + k ≡ k
zero_add k = omega arith

add_suc : (k i : ℕ) → k + suc i ≡ suc k + i
add_suc k i = omega arith

map-append : (f : ℕ → ℕ) (s t : Text) → map f (s ++ t) ≡ map f s ++ map f t
map-append f [] t = refl
map-append f (c ∷ s) t = ap (λ (r : Text). f c ∷ r) (map-append f s t)

-- A function that keeps the digits keeps a text of digits.
map-digits : (f : ℕ → ℕ) (s : Text) → ((c : ℕ) → IsDigit c → f c ≡ c) → All IsDigit s → map f s ≡ s
map-digits f [] keeps d = refl
map-digits f (c ∷ s) keeps (h, d) = rw (keeps c h, map-digits f s keeps d)

prefix_length_bounds : (k : ℕ) → (1 ≤ prefix_length k) × (prefix_length k ≤ 16)
prefix_length_bounds k = omega arith

module _ (fold_char : ℕ → ℕ) where
  all_keys : List HiveUser → List Key
  all_keys [] = []
  all_keys (u ∷ us) = keys_of (map fold_char u.username) 16 ++ all_keys us

  length-all_keys : (us : List HiveUser) → length (all_keys us) ≡ 16 * length us
  unfolding all_keys
  length-all_keys [] = omega arith
  length-all_keys (u ∷ us) = omega (
    arith,
    length-append {0} (keys_of (map fold_char u.username) 16) (all_keys us),
    length-keys_of (map fold_char u.username) 16,
    length-all_keys us,
  )

  any_of-append_right :
      (k : Key) (xs ys : List Key)
      → any_of (same_key k) ys ≡ true
      → any_of (same_key k) (xs ++ ys) ≡ true
  any_of-append_right k [] ys h = h
  any_of-append_right k (x ∷ xs) ys h = ground (arith, any_of-append_right k xs ys)

  any_of-append_left :
      (k : Key) (xs ys : List Key)
      → any_of (same_key k) xs ≡ true
      → any_of (same_key k) (xs ++ ys) ≡ true
  any_of-append_left k [] ys h = cc (h)
  any_of-append_left k (x ∷ xs) ys h = ground (arith, any_of-append_left k xs ys)

  any_of-all_keys :
      (name : Text) (c : ℕ) (us : List HiveUser)
      → is_taken_name fold_char us name ≡ true
      → 1 ≤ c
      → c ≤ 16
      → any_of (same_key (map fold_char name, c)) (all_keys us) ≡ true
  unfolding all_keys iexact
  any_of-all_keys name c [] h l u = cc (h)
  any_of-all_keys name c (v ∷ us) h l u =
      elim (Bool-cases (text_eq (map fold_char v.username) (map fold_char name))) [
        | inl e ↦
            any_of-append_left (map fold_char name, c) (keys_of (map fold_char v.username) 16)
              (all_keys us)
              (any_of-keys_of (map fold_char name) (map fold_char v.username) c 16
                (text_eq_sym (map fold_char v.username) (map fold_char name) e) l u)
        | inr e ↦
            let later = rw (iexact, e) at h in
            any_of-append_right (map fold_char name, c) (keys_of (map fold_char v.username) 16)
              (all_keys us) (any_of-all_keys name c us later l u)
      ]

  search_username-none :
      (fuel k : ℕ) (normalized : Text) (us : List HiveUser)
      → search_username fold_char fuel k normalized us ≡ none
      → (i : ℕ) → i < fuel
      → is_taken_name fold_char us (candidate normalized (k + i)) ≡ true
  unfolding search_username
  search_username-none zero k normalized us h i lt = absurd (omega arith)
  search_username-none (suc fuel) k normalized us h zero lt =
      elim (Bool-cases (is_taken_name fold_char us (candidate normalized k))) [
        | inr e ↦ let found = rw e at h in cc (found)
        | inl e ↦ rw (add_zero k) e
      ]
  search_username-none (suc fuel) k normalized us h (suc i) lt =
      elim (Bool-cases (is_taken_name fold_char us (candidate normalized k))) [
        | inr e ↦ let found = rw e at h in cc (found)
        | inl e ↦
            let later = rw e at h in
            rw (add_suc k i) (search_username-none fuel (suc k) normalized us later i (omega arith))
      ]

  search_username-some :
      (fuel k : ℕ) (normalized name : Text) (us : List HiveUser)
      → search_username fold_char fuel k normalized us ≡ some name
      → is_taken_name fold_char us name ≡ false
  unfolding search_username
  search_username-some zero k normalized name us h = cc (h)
  search_username-some (suc fuel) k normalized name us h =
      elim (Bool-cases (is_taken_name fold_char us (candidate normalized k))) [
        | inl e ↦
            let later = rw e at h in search_username-some fuel (suc k) normalized name us later
        | inr e ↦
            let found = rw e at h in
            let same : candidate normalized k ≡ name = cc (found) in rw (sym same) e
      ]

  -- The key of the candidate with the suffix k + 1.
  abbrev key_at : Text → ℕ → Key
  key_at normalized k = (map fold_char (candidate normalized (suc k)), prefix_length (suc k))

  folded_candidate :
      ((c : ℕ) → IsDigit c → fold_char c ≡ c)
      → (normalized : Text) (k p : ℕ) → prefix_length (suc k) ≡ p
      → map fold_char (candidate normalized (suc k))
        ≡ map fold_char (take p normalized) ++ decimal (suc k)
  unfolding candidate
  folded_candidate keeps normalized k p h = rw (
    h,
    map-append fold_char (take p normalized) (decimal (suc k)),
    map-digits fold_char (decimal (suc k)) keeps (IsDigit-decimal (suc k)),
  )

  -- Candidates with the same prefix length that fold to the same text have the same suffix.
  key_at-injective :
      ((c : ℕ) → IsDigit c → fold_char c ≡ c)
      → (normalized : Text) (i j : ℕ) → same_key (key_at normalized i) (key_at normalized j) ≡ true
      → i ≡ j
  unfolding candidate
  key_at-injective keeps normalized i j h =
      let p = prefix_length (suc i) in
      let folded =
        eq_of_text_eq (map fold_char (candidate normalized (suc i)))
          (map fold_char (candidate normalized (suc j))) (ground arith) in
      let same_length : prefix_length (suc j) ≡ p = ground arith in
      let digits =
        append_cancel (map fold_char (take p normalized)) (decimal (suc i)) (decimal (suc j)) (
          sym (folded_candidate keeps normalized i p refl)
          ∙ folded
          ∙ folded_candidate keeps normalized j p same_length) in
      let same = eq_of_decimal (suc i) (suc j) digits in omega arith

  -- The fuel is enough: whatever users there are, the search returns a name, and no user has it.
  pub build_unique_username_total :
      ((c : ℕ) → IsDigit c → fold_char c ≡ c)
      → (is_alnum : ℕ → Bool) (lower : Text → Text) (base : Text) (us : List HiveUser)
      → (name : Text) × (build_unique_username fold_char is_alnum lower base us ≡ some name)
        × (is_taken_name fold_char us name ≡ false)
  unfolding build_unique_username
  build_unique_username_total keeps is_alnum lower base us =
      let normalized = normalized_username is_alnum lower base in
      let rounds = 16 * length us + 2 in
      elim (Option-cases (search_username fold_char rounds 0 normalized us)) [
        | inr (name, e) ↦ (name, e, search_username-some rounds 0 normalized name us e)
        | inl e ↦
            let taken = search_username-none rounds 0 normalized us e in
            let too_many =
              pigeonhole same_key same_key_euclid (16 * length us + 1) (key_at normalized)
                (all_keys us)
                (λ i lt.
                  any_of-all_keys (candidate normalized (suc i)) (prefix_length (suc i)) us
                    (rw (← zero_add (suc i)) (taken (suc i) (omega arith)))
                    (prefix_length_bounds (suc i)).0 (prefix_length_bounds (suc i)).1)
                (λ i j li lj. key_at-injective keeps normalized i j) in
            absurd (omega (arith, length-all_keys us))
      ]
