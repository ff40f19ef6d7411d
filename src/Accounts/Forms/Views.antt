-- ===== src/Accounts/Forms/Views.antt =====
-- The views behind the forms in apps/accounts/views.py: signup_view, profile_edit_view and
-- password_change_view at a POST, with create_user and update_user_password of
-- apps/accounts/services.py. `current` is `request.current_user`, `make_password` is Django's.
use hivewiki_web.Base.{ℕ, Bool, Option, none, some, List, ◌∷◌, ◌==◌, if◌then◌else◌, Result, ok, err}
use hivewiki_web.Base.Text.{Text}
use hivewiki_web.Django.Cache.{Cache}
use hivewiki_web.Accounts.Models.{HiveUser, user, active}
use hivewiki_web.Accounts.Directory.{Directory, save_user, is_taken}
use hivewiki_web.Accounts.Login.{Session, login_user}
use hivewiki_web.Accounts.Middleware.{Access, granted}
use hivewiki_web.Accounts.Forms.{
  Field, FormError, CleanedSignUp, CleanedProfile, sign_up_form, profile_edit_form,
  password_change_form,
}

pub data FormResponse : Type 0 where
  to_dashboard to_login_page no_password integrity_error : FormResponse
  form_errors : List FormError → FormResponse
  signed_up saved changed : HiveUser → FormResponse

module _ (make_password : Text → Text) where
  abbrev pub created : ℕ → ℕ → Text → Text → Text → HiveUser
  created now id username email password = record {
    id = id;
    username = username;
    email = email;
    role = user;
    password_hash = some (make_password password);
    status = active;
    profile_image = none;
    created_at = now;
    updated_at = now;
  }

  -- `HiveUser.objects.create(…)`: `none` is the IntegrityError of a name or an email that is there.
  unfoldable pub create_user :
      ℕ → ℕ → Text → Text → Text → List HiveUser → Option (HiveUser × List HiveUser)
  create_user now id username email password users =
      let u = created now id username email password in
      if is_taken id username email users then none else some (u, u ∷ users)

  unfoldable pub update_user_password : ℕ → Text → HiveUser → List HiveUser → List HiveUser
  update_user_password now new_password u users =
      save_user u.id
        (λ v. record v { password_hash = some (make_password new_password); updated_at = now })
        users

-- `form.save()`: the middleware loads the row without `updated_at`, so the save leaves it as it is.
unfoldable pub save_profile : HiveUser → CleanedProfile → List HiveUser → List HiveUser
save_profile u p users =
    save_user u.id
      (λ v. record v {
        username = p.username;
        email = p.email;
        profile_image = some p.profile_image;
      })
      users

module _ (clean_field : Field → Text → Option Text) (fold_char : ℕ → ℕ) (lower : Text → Text)
    (validate_password : Text → Text → Text → Bool) (make_password : Text → Text) where
  module _ (index : Cache ℕ (List Text) ◌==◌) (session_cookie_age : ℕ) where
    -- The index of sessions, the session, and the tables.
    abbrev pub SignUpWorld : Type 0
    SignUpWorld = index.Store × Session × Directory

    -- What follows `create_user`.
    abbrev pub sign_up_created :
        ℕ → Text → SignUpWorld → Option (HiveUser × List HiveUser) → FormResponse × SignUpWorld
    sign_up_created now new_key w none = (integrity_error, w)
    sign_up_created now new_key (i, s, db) (some (u, users)) =
        let (i', s') = login_user index session_cookie_age now new_key u (i, s) in
        (signed_up u, (i', s', record db { users = users }))

    abbrev pub sign_up_cleaned :
        ℕ
        → Text
        → ℕ
        → SignUpWorld
        → Result (List FormError) CleanedSignUp
        → FormResponse × SignUpWorld
    sign_up_cleaned now new_key id w (err es) = (form_errors es, w)
    sign_up_cleaned now new_key id (i, s, db) (ok c) =
        sign_up_created now new_key (i, s, db)
          (create_user make_password now id c.username c.email c.password db.users)

    -- `id` is the key of a new row.
    unfoldable pub signup_view :
        ℕ
        → Text
        → ℕ
        → Text
        → Text
        → Text
        → Text
        → Option HiveUser
        → SignUpWorld
        → FormResponse × SignUpWorld
    signup_view now new_key id name address pass confirmed (some current) w = (to_dashboard, w)
    signup_view now new_key id name address pass confirmed none (i, s, db) =
        sign_up_cleaned now new_key id (i, s, db)
          (sign_up_form clean_field fold_char lower validate_password db.users name address pass
            confirmed)

  abbrev pub profile_cleaned :
      HiveUser → Directory → Result (List FormError) CleanedProfile → FormResponse × Directory
  profile_cleaned u db (err es) = (form_errors es, db)
  profile_cleaned u db (ok p) = (saved u, record db { users = save_profile u p db.users })

  -- Behind `login_required`.
  unfoldable pub profile_edit_view :
      Text → Text → Text → Text → Access → Directory → FormResponse × Directory
  profile_edit_view base_url name address image (granted u) db = profile_cleaned u db (
      profile_edit_form clean_field fold_char lower validate_password base_url db.users u name
        address image)
  profile_edit_view base_url name address image _ db = (to_login_page, db)

  module _ (check_password : Text → Text → Bool) where
    abbrev pub password_cleaned :
        ℕ → HiveUser → Directory → Result (List FormError) Text → FormResponse × Directory
    password_cleaned now u db (err es) = (form_errors es, db)
    password_cleaned now u db (ok new) =
        (changed u, record db { users = update_user_password make_password now new u db.users })

    abbrev pub password_posted :
        ℕ → Text → Text → Text → HiveUser → Directory → Option Text → FormResponse × Directory
    password_posted now old new confirmed u db none = (no_password, db)
    password_posted now old new confirmed u db (some hash) = password_cleaned now u db (
        password_change_form clean_field fold_char lower validate_password check_password u old new
          confirmed)

    unfoldable pub password_change_view :
        ℕ → Text → Text → Text → Access → Directory → FormResponse × Directory
    password_change_view now old new confirmed (granted u) db =
        password_posted now old new confirmed u db u.password_hash
    password_change_view now old new confirmed _ db = (to_login_page, db)
