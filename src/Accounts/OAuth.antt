-- ===== src/Accounts/OAuth.antt =====
-- apps/accounts/services.py, link_oauth_account_to_user: an OAuth account is linked to a user. `lower`
-- is Python's `str.lower`. The code runs in one transaction, so what raises writes nothing, and the
-- unique constraint cannot fail: the row is locked and no other request runs.
pub mod Usernames
pub mod SignUp
pub mod Owners
pub mod Links
mod Tests
use hivewiki_web.Base.{
  ℕ, Bool, true, false, not, ◌&&◌, ◌||◌, Option, none, some, List, [], ◌∷◌, ◌==◌, if◌then◌else◌,
  first_of_rows, update_of, any_of, Result, ok, err, raise_if, ◌>>=◌, ◌>>◌,
}
use hivewiki_web.Base.Text.{Text, text_eq, strip, is_empty}
use hivewiki_web.Accounts.Models.{HiveUser, OAuthAccount, OAuthProvider, same_provider, is_active}
use hivewiki_web.Accounts.Directory.{Directory, user_by_id, save_user}

-- The dict `profile`.
pub record Profile : Type 0 where
  pub provider_user_id : Text
  pub email : Text
  pub provider_email : Option Text
  pub profile_image : Option Text
  pub username_hint : Option Text

pub data LinkError : Type 0 where
  does_not_exist inactive_account other_email linked_elsewhere provider_linked : LinkError

-- `value or ""`
abbrev pub text_or_empty : Option Text → Text
text_or_empty none = []
text_or_empty (some t) = t

unfoldable pub sync_profile_image_from_oauth_profile :
    ℕ → HiveUser → Profile → Directory → Directory
sync_profile_image_from_oauth_profile now u profile db =
    let image = strip (text_or_empty profile.profile_image) in
    if not (is_empty (text_or_empty u.profile_image)) || is_empty image then db else record db {
      users =
          save_user u.id (λ v. record v { profile_image = some image; updated_at = now }) db.users;
    }

-- `OAuthAccount.objects.filter(provider=…, provider_user_id=…).first()`
abbrev pub account_of : OAuthProvider → Text → List OAuthAccount → Option OAuthAccount
account_of provider id =
    first_of_rows (λ a. same_provider a.provider provider && text_eq a.provider_user_id id)

abbrev pub refreshed : ℕ → Profile → OAuthAccount → OAuthAccount
refreshed now profile a = record a {
  provider_email = profile.provider_email;
  last_login_at = some now;
}

abbrev pub new_account : ℕ → ℕ → HiveUser → OAuthProvider → Profile → OAuthAccount
new_account now id u provider profile = record {
  id = id;
  user_id = u.id;
  provider = provider;
  provider_user_id = profile.provider_user_id;
  provider_email = profile.provider_email;
  linked_at = now;
  last_login_at = some now;
}

-- What follows the search for the account: `id` is the primary key of a new row.
unfoldable pub link_found :
    ℕ
    → ℕ
    → HiveUser
    → OAuthProvider
    → Profile
    → Directory
    → Option OAuthAccount
    → Result LinkError (OAuthAccount × Directory)
link_found now id u provider profile db (some a) =
    if a.user_id == u.id
    then ok (
      refreshed now profile a,
      sync_profile_image_from_oauth_profile now u profile (record db {
        oauth_accounts = update_of (λ b. b.id == a.id) (refreshed now profile) db.oauth_accounts;
      }),
    )
    else err linked_elsewhere
link_found now id u provider profile db none = do
  raise_if (any_of (λ a. a.user_id == u.id && same_provider a.provider provider) db.oauth_accounts)
      provider_linked
  ok (
    new_account now id u provider profile,
    sync_profile_image_from_oauth_profile now u profile
        (record db { oauth_accounts = new_account now id u provider profile ∷ db.oauth_accounts }),
  )

module _ (lower : Text → Text) where
  unfoldable pub link_locked_user :
      ℕ
      → ℕ
      → HiveUser
      → OAuthProvider
      → Profile
      → Directory
      → Result LinkError (OAuthAccount × Directory)
  link_locked_user now id u provider profile db = do
    raise_if (not (is_active u.status)) inactive_account
    raise_if (not (text_eq (lower (strip u.email)) (lower (strip profile.email)))) other_email
    link_found now id u provider profile db
        (account_of provider profile.provider_user_id db.oauth_accounts)

  unfoldable pub link_oauth_account_to_user :
      ℕ → ℕ → ℕ → OAuthProvider → Profile → Directory → Result LinkError (OAuthAccount × Directory)
  link_oauth_account_to_user now id user_id provider profile db =
      elim (user_by_id user_id db.users) [
        | none ↦ err does_not_exist
        | some u ↦ link_locked_user now id u provider profile db
      ]
