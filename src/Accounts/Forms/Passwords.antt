-- ===== src/Accounts/Forms/Passwords.antt =====
-- What a change of the password does.
use hivewiki_web.Base.{
  ℕ, ◌≡◌, ◌⊎◌, refl, sym, ap, ◌∙◌, Bool, true, false, not, ◌&&◌, ◌||◌, Option, none, some, List, [],
  ◌∷◌, ◌++◌, ◌==◌, ==_refl, if◌then◌else◌, first_of_rows, update_of, Result, ok, err, ok_raise_if,
  Result-cases, Bool-cases, inl, inr,
}
use hivewiki_web.Base.Text.{Text, is_empty}
use hivewiki_web.Accounts.Models.{HiveUser, is_active}
use hivewiki_web.Accounts.Directory.{Directory, user_by_id, user_by_id-save_user, map_option}
use hivewiki_web.Accounts.OAuth.{text_or_empty}
use hivewiki_web.Accounts.Login.{get_active_user_by_email, authenticate_user}
use hivewiki_web.Accounts.Middleware.{granted}
use hivewiki_web.Accounts.Forms.{
  Field, current_password, new_password, FormError, mismatch, same_password, weak, wrong_password,
  error_if, differ, repeats, is_weak, clean_current_password, password_checked,
  password_change_form,
}
use hivewiki_web.Accounts.Forms.Views.{
  FormResponse, no_password, form_errors, changed, password_posted, update_user_password,
  password_change_view,
}
use hivewiki_web.Accounts.Forms.Valid.{append_nil_parts, valid_lem, error_if_lem, clean_with_lem}

-- A query whose test an update does not change finds the updated row.
pub first_of_rows-update_of :
    {A : Type 0} (q p : A → Bool) (f : A → A) (xs : List A)
    → ((x : A) → q (f x) ≡ q x)
    → first_of_rows q (update_of p f xs)
      ≡ map_option (λ x. if p x then f x else x) (first_of_rows q xs)
first_of_rows-update_of q p f [] keeps = refl
first_of_rows-update_of q p f (x ∷ xs) keeps =
    let rest = first_of_rows-update_of q p f xs keeps in
    elim (Bool-cases (p x)) [
      | inl e ↦ elim (Bool-cases (q x)) [
        | inl g ↦ rw (e, keeps x, g, e) refl
        | inr g ↦ rw (e, keeps x, g) rest
      ]
      | inr e ↦ elim (Bool-cases (q x)) [ inl g ↦ rw (e, g, e) refl | inr g ↦ rw (e, g) rest ]
    ]

module _ (clean_field : Field → Text → Option Text) (fold_char : ℕ → ℕ) (lower : Text → Text)
    (validate_password : Text → Text → Text → Bool) (make_password : Text → Text)
    (check_password : Text → Text → Bool) where
  password_checked_lem :
      (u : HiveUser) (o n c : Result FormError Text) (x : Text)
      → password_checked clean_field fold_char lower validate_password u o n c ≡ ok x
      → (t : Text) × (o ≡ ok t)
        × (n ≡ ok x)
        × (repeats t x ≡ false)
        × (is_weak validate_password x u.username u.email ≡ false)
  password_checked_lem u (err _) n c x h = cc (h)
  password_checked_lem u (ok o) (err _) c x h = cc (h)
  password_checked_lem u (ok o) (ok n) (err _) x h = cc (h)
  password_checked_lem u (ok o) (ok n) (ok c) x h =
      let first = error_if (differ n c) mismatch ++ error_if (repeats o n) same_password in
      let last = error_if (is_weak validate_password n u.username u.email) weak in
      let (none_added, same) = valid_lem (first ++ last) n x h in
      let (rest, no_weak) = append_nil_parts first last none_added in
      let (_, no_again) =
        append_nil_parts (error_if (differ n c) mismatch) (error_if (repeats o n) same_password)
          rest in
      (
        o,
        refl,
        ap (λ (y : Text). ok y) same,
        ap (λ (y : Text). repeats o y) (sym same)
            ∙ error_if_lem (repeats o n) same_password no_again,
        ap (λ (y : Text). is_weak validate_password y u.username u.email) (sym same)
            ∙ error_if_lem (is_weak validate_password n u.username u.email) weak no_weak,
      )

  -- The old password fits the hash of the row, and the new one is another and passes the validators.
  abbrev pub IsChecked : HiveUser → Text → Text → Text → Type 0
  IsChecked u old new p =
      (clean_field new_password new ≡ some p)
      × (is_weak validate_password p u.username u.email ≡ false)
      × ((t : Text) × (clean_field current_password old ≡ some t)
          × (is_empty (text_or_empty u.password_hash)
                || not (check_password t (text_or_empty u.password_hash))
              ≡ false)
          × (repeats t p ≡ false))

  password_change_form-IsChecked :
      (u : HiveUser) (old new confirmed p : Text)
      → password_change_form clean_field fold_char lower validate_password check_password u old new
          confirmed
        ≡ ok p
      → IsChecked u old new p
  unfolding password_change_form clean_current_password
  password_change_form-IsChecked u old new confirmed p h =
      let (t, o, n, other, strong) = password_checked_lem u _ _ _ p h in
      let (x, posted, cleaned) =
        clean_with_lem current_password (clean_current_password check_password u)
          (clean_field current_password old) t o in
      let (y, posted_new, kept) =
        clean_with_lem new_password (λ t. ok t) (clean_field new_password new) p n in
      let same : y ≡ p = cc (kept) in
      let test = λ (z : Text).
        is_empty (text_or_empty u.password_hash)
        || not (check_password z (text_or_empty u.password_hash)) in
      let (right, last) = ok_raise_if (test x) wrong_password (ok x) t cleaned in
      let same_old : x ≡ t = cc (last) in
      (
        posted_new ∙ ap some same,
        strong,
        (t, posted ∙ ap some same_old, ap test (sym same_old) ∙ right, other),
      )

  abbrev pub with_password : ℕ → Text → HiveUser → HiveUser
  with_password now p u = record u { password_hash = some (make_password p); updated_at = now }

  module _ (fits : (p : Text) → check_password p (make_password p) ≡ true)
      (hashed : (p : Text) → is_empty (make_password p) ≡ false) (iexact : Text → Text → Bool) where
    authenticated :
        (now : ℕ) (p : Text) (u : HiveUser) (users : List HiveUser)
        → get_active_user_by_email iexact u.email users ≡ some u
        → authenticate_user iexact check_password u.email p
            (update_user_password make_password now p u users)
          ≡ some (with_password now p u)
    unfolding authenticate_user get_active_user_by_email update_user_password
    authenticated now p u users found =
        let row =
          first_of_rows-update_of (λ v. iexact v.email u.email && is_active v.status)
            (λ v. v.id == u.id) (with_password now p) users (λ v. refl) in
        rw
          (
            authenticate_user,
            get_active_user_by_email,
            update_user_password,
            row,
            found,
            ==_refl u.id,
            hashed p,
            fits p,
          )
          refl

    -- What a post of the form may answer.
    abbrev pub IsPosted : ℕ → Text → Text → HiveUser → Directory → FormResponse × Directory → Type 0
    IsPosted now old new u db r =
        ((u.password_hash ≡ none) × (r ≡ (no_password, db)))
        ⊎ ((es : List FormError) × (r ≡ (form_errors es, db)))
        ⊎ ((p : Text) × (r.0 ≡ changed u)
            × IsChecked u old new p
            × (authenticate_user iexact check_password u.email p r.1.users
                ≡ some (with_password now p u))
            × ((j : ℕ) → (u.id == j) ≡ false → user_by_id j r.1.users ≡ user_by_id j db.users))

    password_posted-IsPosted :
        (now : ℕ) (old new confirmed : Text) (u : HiveUser) (db : Directory) (o : Option Text)
        → get_active_user_by_email iexact u.email db.users ≡ some u
        → u.password_hash ≡ o
        → IsPosted now old new u db (
            password_posted clean_field fold_char lower validate_password make_password
              check_password now old new confirmed u db o)
    unfolding update_user_password
    password_posted-IsPosted now old new confirmed u db none found e = inl (e, refl)
    password_posted-IsPosted now old new confirmed u db (some hash) found e =
        elim (Result-cases (
          password_change_form clean_field fold_char lower validate_password check_password u old
            new confirmed)) [
              | inl (es, refused) ↦ inr (inl (es, rw refused refl))
              | inr (p, accepted) ↦ inr (
                  inr (
                    p,
                    rw accepted refl,
                    password_change_form-IsChecked u old new confirmed p accepted,
                    rw accepted (authenticated now p u db.users found),
                    λ j other.
                        rw
                          (
                            accepted,
                            user_by_id-save_user u.id j (with_password now p) db.users (λ v. refl),
                            other,
                          )
                          refl,
                  ))
            ]

    -- Let a hash fit its password and not be empty, and let the email of the current user find that user. A
    -- user without a password, or whose form has errors, is told so and nothing is written. Else the old
    -- password that was posted fits the hash, the new one is another and passes the validators, the
    -- email with the new password authenticates the user from then on, and no other row changes.
    pub password_change_view_lem :
        (now : ℕ) (old new confirmed : Text) (u : HiveUser) (db : Directory)
        → get_active_user_by_email iexact u.email db.users ≡ some u
        → IsPosted now old new u db (
            password_change_view clean_field fold_char lower validate_password make_password
              check_password now old new confirmed
              (granted u)
              db)
    unfolding password_change_view
    password_change_view_lem now old new confirmed u db found =
        password_posted-IsPosted now old new confirmed u db u.password_hash found refl
