-- ===== src/Accounts/Forms/SignedUp.antt =====
-- What a sign-up by the form does.
use hivewiki_web.Base.{
  ℕ, ◌≡◌, ◌⊎◌, refl, sym, subst, ◌∙◌, Bool, true, false, Option, none, some, List, [], ◌∷◌, ◌==◌,
  any_of, any_apart, Result-cases, Bool-cases, inl, inr, map,
}
use hivewiki_web.Base.Text.{Text, text_eq, text_eq_refl, eq_of_text_eq, is_empty, strip}
use hivewiki_web.Django.Cache.{Cache}
use hivewiki_web.Accounts.Models.{HiveUser, active}
use hivewiki_web.Accounts.Directory.{is_taken}
use hivewiki_web.Accounts.OAuth.Usernames.{iexact}
use hivewiki_web.Accounts.OAuth.SignUp.Outcomes.{AreUnique}
use hivewiki_web.Accounts.Login.{login_user, get_active_user_by_email, authenticate_user}
use hivewiki_web.Accounts.Forms.{Field, username, email, password, FormError, sign_up_form}
use hivewiki_web.Accounts.Forms.Views.{
  form_errors, signed_up, created, create_user, SignUpWorld, signup_view,
}
use hivewiki_web.Accounts.Forms.Valid.{any_of_or, sign_up_form-IsCleanSignUp}

pub iexact_refl : (fold_char : ℕ → ℕ) (t : Text) → iexact fold_char t t ≡ true
unfolding iexact
iexact_refl fold_char t = text_eq_refl (map fold_char t)

-- Texts that differ when compared without case differ.
apart : (fold_char : ℕ → ℕ) (s t : Text) → iexact fold_char s t ≡ false → text_eq s t ≡ false
apart fold_char s t h = elim (Bool-cases (text_eq s t)) [
  | inr e ↦ e
  | inl e ↦
      let both = subst (λ (x : Text). iexact fold_char x t ≡ false) (eq_of_text_eq s t e) h in
      let clash : true ≡ false = sym (iexact_refl fold_char t) ∙ both in cc (clash)
]

untaken :
    (fold_char : ℕ → ℕ) (id : ℕ) (name address : Text) (users : List HiveUser)
    → any_of (λ u. iexact fold_char u.username name) users ≡ false
    → any_of (λ u. iexact fold_char u.email address) users ≡ false
    → is_taken id name address users ≡ false
untaken fold_char id name address [] h k = refl
untaken fold_char id name address (u ∷ users) h k =
    let (e, h') = any_apart (λ v. iexact fold_char v.username name) u users h in
    let (f, k') = any_apart (λ v. iexact fold_char v.email address) u users k in
    elim (Bool-cases (u.id == id)) [
      | inl g ↦ rw g (untaken fold_char id name address users h' k')
      | inr g ↦
          rw (g, apart fold_char u.username name e, apart fold_char u.email address f)
            (untaken fold_char id name address users h' k')
    ]

module _ (clean_field : Field → Text → Option Text) (fold_char : ℕ → ℕ) (lower : Text → Text)
    (validate_password : Text → Text → Text → Bool) (make_password : Text → Text)
    (check_password : Text → Text → Bool)
    (fits : (p : Text) → check_password p (make_password p) ≡ true)
    (hashed : (p : Text) → is_empty (make_password p) ≡ false) (index : Cache ℕ (List Text) ◌==◌)
    (session_cookie_age : ℕ) where
  -- The user has the name and the email that were posted, is added to the users, is active, is logged in in
  -- the session, and gets in with the password that was posted.
  abbrev pub IsNewUser :
      Text
      → Text
      → Text
      → HiveUser
      → SignUpWorld clean_field fold_char lower validate_password make_password index
          session_cookie_age
      → SignUpWorld clean_field fold_char lower validate_password make_password index
          session_cookie_age
      → Type 0
  IsNewUser name address pass u (i, s, db) (i', s', db') =
      ((x : Text) × (clean_field username name ≡ some x) × (u.username ≡ strip x))
      × ((y : Text) × (clean_field email address ≡ some y) × (u.email ≡ lower (strip y)))
      × (db' ≡ record db { users = u ∷ db.users })
      × (u.status ≡ active)
      × (s'.user_id ≡ some u.id)
      × (AreUnique fold_char db.users → AreUnique fold_char db'.users)
      × ((p : Text) × (clean_field password pass ≡ some p)
          × (authenticate_user (iexact fold_char) check_password u.email p db'.users ≡ some u))

  authenticated :
      (now id : ℕ) (name address p : Text) (users : List HiveUser)
      → let u = created make_password now id name address p in
        authenticate_user (iexact fold_char) check_password address p (u ∷ users) ≡ some u
  unfolding authenticate_user get_active_user_by_email
  authenticated now id name address p users =
      rw
        (
          authenticate_user,
          get_active_user_by_email,
          iexact_refl fold_char address,
          hashed p,
          fits p,
        )
        refl

  -- Let a hash fit its password and not be empty. A visitor who posts the form is told its errors, and then
  -- nothing is written; or signs up: the unique constraints hold, the user is added to the users,
  -- active and logged in, with the posted name and email, as the fields of the form give them, without
  -- the space at their ends and the email in lower case, no two users get one name or one email, but for case, if none had one,
  -- and the email with the password that was posted authenticates that user.
  pub signup_view_lem :
      (now : ℕ) (new_key : Text) (id : ℕ) (name address pass confirmed : Text)
      (w : SignUpWorld clean_field fold_char lower validate_password make_password index
        session_cookie_age)
      → let r =
          signup_view clean_field fold_char lower validate_password make_password index
            session_cookie_age now new_key id name address pass confirmed none w in
        ((es : List FormError) × (r ≡ (form_errors es, w)))
        ⊎ ((u : HiveUser) × (r.0 ≡ signed_up u) × IsNewUser name address pass u w r.1)
  unfolding signup_view create_user login_user
  signup_view_lem now new_key id name address pass confirmed (i, s, db) =
      elim (Result-cases (
        sign_up_form clean_field fold_char lower validate_password db.users name address pass
          confirmed)) [
            | inl (es, refused) ↦ inl (es, rw (signup_view, refused) refl)
            | inr (c, accepted) ↦
                let (named, addressed, no_name, no_email, posted, strong) =
                  sign_up_form-IsCleanSignUp clean_field fold_char lower validate_password db.users
                    name address pass confirmed c accepted in
                let u = created make_password now id c.username c.email c.password in
                let free = untaken fold_char id c.username c.email db.users no_name no_email in
                inr (
                  u,
                  rw (signup_view, accepted, create_user, free) refl,
                  rw (signup_view, accepted, create_user, free)
                      (
                        named,
                        addressed,
                        refl,
                        refl,
                        refl,
                        λ unique. (
                          any_of_or (λ v. iexact fold_char v.username c.username)
                              (λ v. iexact fold_char v.email c.email) db.users no_name no_email,
                          unique,
                        ),
                        (
                          c.password,
                          posted,
                          authenticated now id c.username c.email c.password db.users,
                        ),
                      ),
                )
          ]
