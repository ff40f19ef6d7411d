-- ===== src/Accounts/OAuth/SignUp.antt =====
-- get_or_create_user_from_oauth_profile of apps/accounts/services.py: the user of an OAuth profile, who is
-- created if there is none. It runs in one transaction, so what raises writes nothing; the unique
-- constraints hold, since the name and the email of a new user are searched for without case.
pub mod Outcomes
use hivewiki_web.Base.{
  ℕ, Bool, not, Option, none, some, List, [], ◌∷◌, ◌==◌, if◌then◌else◌, first_of_rows, update_of,
  Result, ok, err, raise_if, ◌>>=◌, ◌>>◌,
}
use hivewiki_web.Base.Text.{Text, text_eq, strip}
use hivewiki_web.Accounts.Models.{HiveUser, OAuthProvider, OAuthAccount, user, active, is_active}
use hivewiki_web.Accounts.Directory.{Directory, user_by_id}
use hivewiki_web.Accounts.OAuth.{
  Profile, account_of, refreshed, new_account, text_or_empty, sync_profile_image_from_oauth_profile,
}
use hivewiki_web.Accounts.OAuth.Usernames.{iexact, build_unique_username}

pub data SignUpError : Type 0 where
  inactive_account same_email integrity_error out_of_rounds : SignUpError

-- `email.split("@")[0]`
abbrev pub before_at : Text → Text
before_at [] = []
before_at (c ∷ s) = if c == b'@' then [] else c ∷ before_at s

-- `profile.get("username_hint", email.split("@")[0])`
abbrev pub hint_of : Profile → Option Text → Text
hint_of profile none = before_at profile.email
hint_of profile (some hint) = hint

abbrev pub image_or_none : Text → Option Text
image_or_none [] = none
image_or_none (c ∷ s) = some (c ∷ s)

abbrev pub new_user : ℕ → ℕ → Text → Profile → HiveUser
new_user now id name profile = record {
  id = id;
  username = name;
  email = profile.email;
  role = user;
  password_hash = none;
  status = active;
  profile_image = image_or_none (strip (text_or_empty profile.profile_image));
  created_at = now;
  updated_at = now;
}

-- A login with an account that is known, and the user it belongs to; the foreign key lets no user be
-- missing.
unfoldable pub known_account :
    ℕ
    → Profile
    → Directory
    → OAuthAccount
    → Option HiveUser
    → Result SignUpError (HiveUser × Directory)
known_account now profile db a none = err integrity_error
known_account now profile db a (some u) = do
  raise_if (not (is_active u.status)) inactive_account
  ok (
    u,
    sync_profile_image_from_oauth_profile now u profile (record db {
      oauth_accounts = update_of (λ b. b.id == a.id) (refreshed now profile) db.oauth_accounts;
    }),
  )

module _ (fold_char : ℕ → ℕ) (is_alnum : ℕ → Bool) (lower : Text → Text) where
  -- What follows the search for the email: `user_id` and `id` are the keys of the new rows.
  unfoldable pub new_account_for :
      ℕ
      → ℕ
      → ℕ
      → OAuthProvider
      → Profile
      → Directory
      → Option HiveUser
      → Result SignUpError (HiveUser × Directory)
  new_account_for now user_id id provider profile db (some u) = do
    raise_if (not (is_active u.status)) inactive_account
    err same_email
  new_account_for now user_id id provider profile db none =
      elim (build_unique_username fold_char is_alnum lower (hint_of profile profile.username_hint)
        db.users) [
          | none ↦ err out_of_rounds
          | some name ↦
              let u = new_user now user_id name profile in
              ok (
                u,
                record {
                  users = u ∷ db.users;
                  oauth_accounts = new_account now id u provider profile ∷ db.oauth_accounts;
                },
              )
        ]

  unfoldable pub by_account :
      ℕ
      → ℕ
      → ℕ
      → OAuthProvider
      → Profile
      → Directory
      → Option OAuthAccount
      → Result SignUpError (HiveUser × Directory)
  by_account now user_id id provider profile db (some a) =
      known_account now profile db a (user_by_id a.user_id db.users)
  by_account now user_id id provider profile db none =
      new_account_for now user_id id provider profile db
        (first_of_rows (λ u. iexact fold_char u.email profile.email) db.users)

  unfoldable pub get_or_create_user_from_oauth_profile :
      ℕ → ℕ → ℕ → OAuthProvider → Profile → Directory → Result SignUpError (HiveUser × Directory)
  get_or_create_user_from_oauth_profile now user_id id provider profile db =
      by_account now user_id id provider profile db
        (account_of provider profile.provider_user_id db.oauth_accounts)
