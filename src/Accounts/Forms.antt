-- ===== src/Accounts/Forms.antt =====
-- apps/accounts/forms.py: what the forms accept. `clean_field` is what the field itself makes of a posted
-- value, `none` if it refuses it (Django's tests of length, characters and email, and its strip). The
-- database compares without case through `fold_char`, `lower` is `str.lower`, and `validate_password` says
-- whether Django's validators accept a password for a name and an email.
pub mod Views
pub mod Valid
pub mod SignedUp
pub mod Passwords
pub mod Unique
pub mod Profiles
mod Tests
use hivewiki_web.Base.{
  ℕ, Bool, not, ◌&&◌, ◌||◌, Option, none, some, List, [], ◌∷◌, ◌++◌, ◌==◌, if◌then◌else◌, any_of,
  Result, ok, err, raise_if, ◌>>=◌, ◌>>◌,
}
use hivewiki_web.Base.Text.{Text, text_eq, strip, is_empty}
use hivewiki_web.Accounts.Models.{HiveUser}
use hivewiki_web.Accounts.OAuth.{text_or_empty}
use hivewiki_web.Accounts.OAuth.Usernames.{iexact}

pub data Field : Type 0 where
  username email password password_confirm profile_image : Field
  current_password new_password new_password_confirm : Field

-- A refusal by a field, and the errors that the forms raise.
pub data FormError : Type 0 where
  invalid : Field → FormError
  name_taken email_taken mismatch weak not_allowed wrong_password same_password : FormError

-- A `clean_…` method after its field.
abbrev pub clean_with : Field → (Text → Result FormError Text) → Option Text → Result FormError Text
clean_with f clean none = err (invalid f)
clean_with f clean (some t) = clean t

-- The error of a field, and its entry of `cleaned_data`, which is missing after an error.
abbrev pub errors_of : Result FormError Text → List FormError
errors_of (err e) = e ∷ []
errors_of (ok t) = []

abbrev pub text_of : Result FormError Text → Text
text_of (err e) = []
text_of (ok t) = t

abbrev pub error_if : Bool → FormError → List FormError
error_if c e = if c then e ∷ [] else []

abbrev pub differ : Text → Text → Bool
differ a b = not (is_empty a) && not (is_empty b) && not (text_eq a b)

abbrev pub repeats : Text → Text → Bool
repeats a b = not (is_empty a) && not (is_empty b) && text_eq a b

abbrev pub is_weak : (Text → Text → Text → Bool) → Text → Text → Text → Bool
is_weak validate_password p name address =
    not (is_empty p) && not (validate_password p name address)

-- What `is_valid()` tests: no error was added.
abbrev pub valid : {A : Type 0} → List FormError → A → Result (List FormError) A
valid [] a = ok a
valid (e ∷ es) a = err (e ∷ es)

pub record CleanedSignUp : Type 0 where
  pub username : Text
  pub email : Text
  pub password : Text

pub record CleanedProfile : Type 0 where
  pub username : Text
  pub email : Text
  pub profile_image : Text

-- `text.startswith(prefix)`
abbrev pub starts_with_text : Text → Text → Bool
starts_with_text [] t = Bool.true
starts_with_text (c ∷ p) [] = Bool.false
starts_with_text (c ∷ p) (d ∷ t) = c == d && starts_with_text p t

-- `text.rstrip("/")`
abbrev pub slash_onto : ℕ → Text → Text
slash_onto c [] = if c == b'/' then [] else c ∷ []
slash_onto c (d ∷ t) = c ∷ d ∷ t

unfoldable pub rstrip_slash : Text → Text
rstrip_slash [] = []
rstrip_slash (c ∷ t) = slash_onto c (rstrip_slash t)

module _ (fold_char : ℕ → ℕ) (lower : Text → Text) where
  -- No row other than the instance has the name or the email.
  unfoldable pub clean_username : List HiveUser → (HiveUser → Bool) → Text → Result FormError Text
  clean_username users is_instance t =
      let name = strip t in
      do
        raise_if (any_of (λ u. not (is_instance u) && iexact fold_char u.username name) users)
            name_taken
        ok name

  unfoldable pub clean_email : List HiveUser → (HiveUser → Bool) → Text → Result FormError Text
  clean_email users is_instance t =
      let address = lower (strip t) in
      do
        raise_if (any_of (λ u. not (is_instance u) && iexact fold_char u.email address) users)
            email_taken
        ok address

-- `base_url` is settings.AWS_S3_UPLOAD_PUBLIC_BASE_URL.
unfoldable pub clean_profile_image : Text → HiveUser → Text → Result FormError Text
clean_profile_image base_url u t =
    let image = strip t in
    let base = rstrip_slash base_url in
    if is_empty image
    then ok []
    else if text_eq image (text_or_empty u.profile_image)
    then ok image
    else if is_empty base || not (starts_with_text (base ++ b'/' ∷ []) image)
    then err not_allowed
    else ok image

module _ (check_password : Text → Text → Bool) where
  unfoldable pub clean_current_password : HiveUser → Text → Result FormError Text
  clean_current_password current t = do
    raise_if
        (is_empty (text_or_empty current.password_hash)
          || not (check_password t (text_or_empty current.password_hash)))
        wrong_password
    ok t

module _ (clean_field : Field → Text → Option Text) (fold_char : ℕ → ℕ) (lower : Text → Text)
    (validate_password : Text → Text → Text → Bool) where
  -- `clean`, with the errors of the fields: the passwords are compared, and then validated.
  abbrev pub sign_up_checked :
      Result FormError Text
      → Result FormError Text
      → Result FormError Text
      → Result FormError Text
      → Result (List FormError) CleanedSignUp
  sign_up_checked u e p c =
      valid
        (errors_of u
          ++ errors_of e
          ++ errors_of p
          ++ errors_of c
          ++ error_if (differ (text_of p) (text_of c)) mismatch
          ++ error_if (is_weak validate_password (text_of p) (text_of u) (text_of e)) weak)
        (record { username = text_of u; email = text_of e; password = text_of p })

  -- SignUpForm has no instance.
  unfoldable pub sign_up_form :
      List HiveUser → Text → Text → Text → Text → Result (List FormError) CleanedSignUp
  sign_up_form users name address pass confirmed =
      sign_up_checked
        (clean_with username (clean_username fold_char lower users (λ v. Bool.false))
          (clean_field username name))
        (clean_with email (clean_email fold_char lower users (λ v. Bool.false))
          (clean_field email address))
        (clean_with password (λ t. ok t) (clean_field password pass))
        (clean_with password_confirm (λ t. ok t) (clean_field password_confirm confirmed))

  abbrev pub profile_checked :
      Result FormError Text
      → Result FormError Text
      → Result FormError Text
      → Result (List FormError) CleanedProfile
  profile_checked u e i =
      valid (errors_of u ++ errors_of e ++ errors_of i)
        (record { username = text_of u; email = text_of e; profile_image = text_of i })

  -- ProfileEditForm, whose instance is the row of the current user.
  unfoldable pub profile_edit_form :
      Text → List HiveUser → HiveUser → Text → Text → Text → Result (List FormError) CleanedProfile
  profile_edit_form base_url users current name address image =
      profile_checked
        (clean_with username (clean_username fold_char lower users (λ v. v.id == current.id))
          (clean_field username name))
        (clean_with email (clean_email fold_char lower users (λ v. v.id == current.id))
          (clean_field email address))
        (clean_with profile_image (clean_profile_image base_url current)
          (clean_field profile_image image))

  -- `clean` of PasswordChangeForm: the new passwords are compared, then the old one with the new, and
  -- the new one is validated.
  abbrev pub password_checked :
      HiveUser
      → Result FormError Text
      → Result FormError Text
      → Result FormError Text
      → Result (List FormError) Text
  password_checked current o n c =
      valid
        (errors_of o
          ++ errors_of n
          ++ errors_of c
          ++ error_if (differ (text_of n) (text_of c)) mismatch
          ++ error_if (repeats (text_of o) (text_of n)) same_password
          ++ error_if (is_weak validate_password (text_of n) current.username current.email) weak)
        (text_of n)

  -- PasswordChangeForm returns the new password.
  unfoldable pub password_change_form :
      (Text → Text → Bool) → HiveUser → Text → Text → Text → Result (List FormError) Text
  password_change_form check_password current old new confirmed =
      password_checked current
        (clean_with current_password (clean_current_password check_password current)
          (clean_field current_password old))
        (clean_with new_password (λ t. ok t) (clean_field new_password new))
        (clean_with new_password_confirm (λ t. ok t) (clean_field new_password_confirm confirmed))
