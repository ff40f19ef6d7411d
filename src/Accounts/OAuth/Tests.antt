-- ===== src/Accounts/OAuth/Tests.antt =====
-- Links and sign-ups at small tables.
use hivewiki_web.Accounts.OAuth.Usernames.{
  normalized_username, candidate, iexact, is_taken_name, search_username, build_unique_username,
}
use hivewiki_web.Accounts.OAuth.Usernames.Fresh.{build_unique_username_total}
use hivewiki_web.Accounts.OAuth.SignUp.{
  new_user, new_account_for, by_account, get_or_create_user_from_oauth_profile,
}
use hivewiki_web.Accounts.OAuth.SignUp.Outcomes.{
  IsSignedUp, get_or_create_user_from_oauth_profile_lem,
}
use hivewiki_web.Base.{ℕ, Bool, false, ◌&&◌, leb, ◌≡◌, refl, true, none, some, [], ◌∷◌, err}
use hivewiki_web.Base.Text.{Text, codes, text_eq, strip, decimal}
use hivewiki_web.Accounts.Models.{HiveUser, OAuthAccount, google, github, user, active}
use hivewiki_web.Accounts.Directory.{Directory, user_by_id}
use hivewiki_web.Accounts.OAuth.{
  Profile, new_account, link_found, link_locked_user, link_oauth_account_to_user, provider_linked,
  sync_profile_image_from_oauth_profile,
}
use hivewiki_web.Accounts.OAuth.Links.{IsLinking, link_oauth_account_to_user_lem}

abbrev as_is : Text → Text
as_is t = t

abbrev owner : HiveUser
owner = record {
  id = 7;
  username = codes "k";
  email = codes "k@a";
  role = user;
  password_hash = none;
  status = active;
  profile_image = some (codes "i");
  created_at = 0;
  updated_at = 0;
}

abbrev held : OAuthAccount
held = record {
  id = 1;
  user_id = 7;
  provider = google;
  provider_user_id = codes "g";
  provider_email = none;
  linked_at = 0;
  last_login_at = none;
}

abbrev db : Directory
db = record { users = owner ∷ []; oauth_accounts = held ∷ [] }

abbrev profile : Profile
profile = record {
  provider_user_id = codes "h";
  email = codes " k@a";
  provider_email = some (codes "k@a");
  profile_image = some (codes "j");
  username_hint = some (codes "k!");
}

abbrev both : Directory
both = record {
  users = owner ∷ [];
  oauth_accounts = new_account 5 2 owner github profile ∷ held ∷ [];
}

link_oauth_account_to_user_lem_example :
    ((u : HiveUser) × (user_by_id 7 db.users ≡ some u)
      × (u.status ≡ active)
      × (text_eq (as_is (strip u.email)) (as_is (strip profile.email)) ≡ true))
    × IsLinking 7 github (codes "h") db.oauth_accounts both.oauth_accounts
unfolding link_oauth_account_to_user link_locked_user link_found
    sync_profile_image_from_oauth_profile text_eq strip
link_oauth_account_to_user_lem_example =
    link_oauth_account_to_user_lem as_is 5 2 7 github profile db both
      (new_account 5 2 owner github profile) refl

-- A second account of the same provider is refused.
second_run : link_oauth_account_to_user as_is 5 2 7 google profile db ≡ err provider_linked
unfolding link_oauth_account_to_user link_locked_user link_found text_eq strip
second_run = refl

abbrev no_fold : ℕ → ℕ
no_fold c = c

abbrev is_letter : ℕ → Bool
is_letter c = leb b'a' c && leb c b'z'

build_unique_username_total_example :
    (name : Text) × (build_unique_username no_fold is_letter as_is (codes "k!") (owner ∷ [])
      ≡ some name)
    × (is_taken_name no_fold (owner ∷ []) name ≡ false)
build_unique_username_total_example =
    build_unique_username_total no_fold (λ c d. refl) is_letter as_is (codes "k!") (owner ∷ [])

-- The name `k` is taken, and the next one is free.
username_run :
    build_unique_username no_fold is_letter as_is (codes "k!") (owner ∷ []) ≡ some (codes "k1")
unfolding build_unique_username search_username normalized_username candidate iexact text_eq decimal
username_run = refl

abbrev newcomer : Profile
newcomer = record profile { email = codes "l@b" }

abbrev signed_up : Directory
signed_up = record {
  users = new_user 5 8 (codes "k1") newcomer ∷ owner ∷ [];
  oauth_accounts = new_account 5 2 (new_user 5 8 (codes "k1") newcomer) github newcomer ∷ held ∷ [];
}

get_or_create_user_from_oauth_profile_lem_example :
    IsSignedUp no_fold github newcomer db (new_user 5 8 (codes "k1") newcomer) signed_up
unfolding get_or_create_user_from_oauth_profile by_account new_account_for build_unique_username
    search_username normalized_username candidate iexact text_eq decimal
get_or_create_user_from_oauth_profile_lem_example =
    get_or_create_user_from_oauth_profile_lem no_fold (λ c d. refl) is_letter as_is 5 8 2 github
      newcomer db signed_up (new_user 5 8 (codes "k1") newcomer) refl refl
