-- ===== src/Accounts/Forms/Valid.antt =====
-- What a form that is valid has tested.
use hivewiki_web.Base.{
  ℕ, ◌≡◌, refl, sym, ap, ◌∙◌, Bool, true, false, not, ◌&&◌, ◌||◌, Option, none, some, List, [], ◌∷◌,
  ◌++◌, any_of, any_apart, Result, ok, err, ok_raise_if,
}
use hivewiki_web.Base.Text.{Text, strip}
use hivewiki_web.Accounts.Models.{HiveUser}
use hivewiki_web.Accounts.OAuth.Usernames.{iexact}
use hivewiki_web.Accounts.Forms.{
  Field, username, email, password, FormError, mismatch, weak, name_taken, email_taken, clean_with,
  errors_of, text_of, error_if, differ, is_weak, valid, CleanedSignUp, clean_username, clean_email,
  sign_up_checked, sign_up_form,
}

pub append_nil_parts : {A : Type 0} (xs ys : List A) → xs ++ ys ≡ [] → (xs ≡ []) × (ys ≡ [])
append_nil_parts [] ys h = (refl, h)
append_nil_parts (x ∷ xs) ys h = cc (h)

pub valid_lem :
    {A : Type 0} (es : List FormError) (a b : A) → valid es a ≡ ok b → (es ≡ []) × (a ≡ b)
valid_lem [] a b h = (refl, cc (h))
valid_lem (e ∷ es) a b h = cc (h)

pub ok_text_of : (r : Result FormError Text) → errors_of r ≡ [] → r ≡ ok (text_of r)
ok_text_of (err e) h = cc (h)
ok_text_of (ok t) h = refl

pub error_if_lem : (c : Bool) (e : FormError) → error_if c e ≡ [] → c ≡ false
error_if_lem true e h = cc (h)
error_if_lem false e h = refl

pub clean_with_lem :
    (f : Field) (clean : Text → Result FormError Text) (o : Option Text) (t : Text)
    → clean_with f clean o ≡ ok t
    → (v : Text) × (o ≡ some v) × (clean v ≡ ok t)
clean_with_lem f clean none t h = cc (h)
clean_with_lem f clean (some v) t h = (v, refl, h)

pub any_of_or :
    {A : Type 0} (p q : A → Bool) (xs : List A)
    → any_of p xs ≡ false
    → any_of q xs ≡ false
    → any_of (λ x. p x || q x) xs ≡ false
any_of_or p q [] h k = refl
any_of_or p q (x ∷ xs) h k =
    let (e, h') = any_apart p x xs h in
    let (f, k') = any_apart q x xs k in rw (e, f) (any_of_or p q xs h' k')

module _ (fold_char : ℕ → ℕ) (lower : Text → Text) where
  pub clean_username_lem :
      (users : List HiveUser) (is_instance : HiveUser → Bool) (t name : Text)
      → clean_username fold_char lower users is_instance t ≡ ok name
      → any_of (λ u. not (is_instance u) && iexact fold_char u.username name) users ≡ false
  unfolding clean_username
  clean_username_lem users is_instance t name h =
      let test =
        λ (n : Text). any_of (λ u. not (is_instance u) && iexact fold_char u.username n) users in
      let (free, last) = ok_raise_if (test (strip t)) name_taken (ok (strip t)) name h in
      let same : strip t ≡ name = cc (last) in ap test (sym same) ∙ free

  pub clean_username_text :
      (users : List HiveUser) (is_instance : HiveUser → Bool) (t name : Text)
      → clean_username fold_char lower users is_instance t ≡ ok name
      → name ≡ strip t
  unfolding clean_username
  clean_username_text users is_instance t name h =
      let (free, last) =
        ok_raise_if
          (any_of (λ u. not (is_instance u) && iexact fold_char u.username (strip t)) users)
          name_taken (ok (strip t)) name h in
      cc (last)

  pub clean_email_text :
      (users : List HiveUser) (is_instance : HiveUser → Bool) (t address : Text)
      → clean_email fold_char lower users is_instance t ≡ ok address
      → address ≡ lower (strip t)
  unfolding clean_email
  clean_email_text users is_instance t address h =
      let (free, last) =
        ok_raise_if
          (any_of (λ u. not (is_instance u) && iexact fold_char u.email (lower (strip t))) users)
          email_taken (ok (lower (strip t))) address h in
      cc (last)

  pub clean_email_lem :
      (users : List HiveUser) (is_instance : HiveUser → Bool) (t address : Text)
      → clean_email fold_char lower users is_instance t ≡ ok address
      → any_of (λ u. not (is_instance u) && iexact fold_char u.email address) users ≡ false
  unfolding clean_email
  clean_email_lem users is_instance t address h =
      let test =
        λ (n : Text). any_of (λ u. not (is_instance u) && iexact fold_char u.email n) users in
      let (free, last) =
        ok_raise_if (test (lower (strip t))) email_taken (ok (lower (strip t))) address h in
      let same : lower (strip t) ≡ address = cc (last) in ap test (sym same) ∙ free

module _ (clean_field : Field → Text → Option Text) (fold_char : ℕ → ℕ) (lower : Text → Text)
    (validate_password : Text → Text → Text → Bool) where
  -- A sign-up that is valid: the name and the email are the posted ones, as their fields give them, without
  -- the space at their ends and the email in lower case, nobody has them but for case, and the password
  -- is the one that the field gave and passes the validators.
  abbrev pub IsCleanSignUp : List HiveUser → Text → Text → Text → CleanedSignUp → Type 0
  IsCleanSignUp users name address pass c =
      ((x : Text) × (clean_field username name ≡ some x) × (c.username ≡ strip x))
      × ((y : Text) × (clean_field email address ≡ some y) × (c.email ≡ lower (strip y)))
      × (any_of (λ u. iexact fold_char u.username c.username) users ≡ false)
      × (any_of (λ u. iexact fold_char u.email c.email) users ≡ false)
      × (clean_field password pass ≡ some c.password)
      × (is_weak validate_password c.password c.username c.email ≡ false)

  sign_up_checked_lem :
      (u e p c : Result FormError Text) (x : CleanedSignUp)
      → sign_up_checked clean_field fold_char lower validate_password u e p c ≡ ok x
      → (u ≡ ok x.username)
        × (e ≡ ok x.email)
        × (p ≡ ok x.password)
        × (is_weak validate_password x.password x.username x.email ≡ false)
  sign_up_checked_lem (err _) e p c x h = cc (h)
  sign_up_checked_lem (ok u) (err _) p c x h = cc (h)
  sign_up_checked_lem (ok u) (ok e) (err _) c x h = cc (h)
  sign_up_checked_lem (ok u) (ok e) (ok p) (err _) x h = cc (h)
  sign_up_checked_lem (ok u) (ok e) (ok p) (ok c) x h =
      let tested = λ (y : CleanedSignUp). is_weak validate_password y.password y.username y.email in
      let cleaned : CleanedSignUp = record { username = u; email = e; password = p } in
      let (none_added, same) = valid_lem _ cleaned x h in
      let (_, no_weak) = append_nil_parts (error_if (differ p c) mismatch) _ none_added in
      (
        ap (λ (y : CleanedSignUp). ok y.username) same,
        ap (λ (y : CleanedSignUp). ok y.email) same,
        ap (λ (y : CleanedSignUp). ok y.password) same,
        ap tested (sym same) ∙ error_if_lem (tested cleaned) weak no_weak,
      )

  pub sign_up_form-IsCleanSignUp :
      (users : List HiveUser) (name address pass confirmed : Text) (c : CleanedSignUp)
      → sign_up_form clean_field fold_char lower validate_password users name address pass confirmed
        ≡ ok c
      → IsCleanSignUp users name address pass c
  unfolding sign_up_form
  sign_up_form-IsCleanSignUp users name address pass confirmed c h =
      let (u, e, p, strong) = sign_up_checked_lem _ _ _ _ c h in
      let nobody = λ (v : HiveUser). false in
      let (x, fielded, named) =
        clean_with_lem username (clean_username fold_char lower users nobody)
          (clean_field username name) c.username u in
      let (y, fielded', addressed) =
        clean_with_lem email (clean_email fold_char lower users nobody) (clean_field email address)
          c.email e in
      let (z, posted, kept) =
        clean_with_lem password (λ t. ok t) (clean_field password pass) c.password p in
      let same : z ≡ c.password = cc (kept) in
      (
        (x, fielded, clean_username_text fold_char lower users nobody x c.username named),
        (y, fielded', clean_email_text fold_char lower users nobody y c.email addressed),
        clean_username_lem fold_char lower users nobody x c.username named,
        clean_email_lem fold_char lower users nobody y c.email addressed,
        posted ∙ ap some same,
        strong,
      )
