-- ===== src/Accounts/OAuth/Usernames.antt =====
-- _build_unique_username of apps/accounts/services.py: a name for a new user that no row has. The
-- database's `iexact` compares texts after `fold_char` on every character; `is_alnum` is
-- `str.isalnum` of a character and `lower` is `str.lower`.
pub mod Fresh
use hivewiki_web.Base.{
  ℕ, zero, suc, ◌+◌, ◌-◌, ◌*◌, max, Bool, ◌||◌, Option, none, some, List, [], ◌∷◌, ◌++◌, map, ◌==◌,
  if◌then◌else◌, keep, any_of, length, take,
}
use hivewiki_web.Base.Text.{Text, codes, text_eq, decimal}
use hivewiki_web.Core.CommunityContent.{or_text}
use hivewiki_web.Accounts.Models.{HiveUser}

unfoldable pub normalized_username : (ℕ → Bool) → (Text → Text) → Text → Text
normalized_username is_alnum lower base =
    let kept = keep (λ c. is_alnum c || c == b'_') (or_text base (codes "user")) in
    or_text (take 16 (lower kept)) (codes "user")

-- The number of characters of the name that stay in front of a suffix.
abbrev pub prefix_length : ℕ → ℕ
prefix_length suffix = max 1 (16 - length (decimal suffix))

-- The candidate of each round: the name itself, and then the name with the suffixes 1, 2, …
unfoldable pub candidate : Text → ℕ → Text
candidate normalized zero = normalized
candidate normalized (suc k) = take (prefix_length (suc k)) normalized ++ decimal (suc k)

module _ (fold_char : ℕ → ℕ) where
  unfoldable pub iexact : Text → Text → Bool
  iexact a b = text_eq (map fold_char a) (map fold_char b)

  -- `HiveUser.objects.filter(username__iexact=name).exists()`
  abbrev pub is_taken_name : List HiveUser → Text → Bool
  is_taken_name users name = any_of (λ u. iexact u.username name) users

  -- The `while`, from the round `k` on; `none` means that the fuel ran out.
  unfoldable pub search_username : ℕ → ℕ → Text → List HiveUser → Option Text
  search_username zero k normalized users = none
  search_username (suc fuel) k normalized users =
      let rest = search_username fuel (suc k) normalized users in
      if is_taken_name users (candidate normalized k) then rest else some (candidate normalized k)

  -- The fuel: a user blocks one suffix at most for each of the sixteen lengths of the prefix.
  unfoldable pub build_unique_username :
      (ℕ → Bool) → (Text → Text) → Text → List HiveUser → Option Text
  build_unique_username is_alnum lower base users =
      search_username (16 * length users + 2) 0 (normalized_username is_alnum lower base) users
