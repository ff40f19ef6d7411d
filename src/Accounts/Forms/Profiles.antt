-- ===== src/Accounts/Forms/Profiles.antt =====
-- What an edit of the profile does.
use hivewiki_web.Base.{
  ℕ, ◌≡◌, ◌⊎◌, refl, sym, ap, ◌∙◌, Bool, true, false, not, ◌||◌, Option, some, List, [], ◌∷◌, ◌++◌,
  ◌==◌, Result, ok, err, Result-cases, Bool-cases, inl, inr, ==_refl,
}
use hivewiki_web.Base.Text.{Text, text_eq, eq_of_text_eq, strip, is_empty}
use hivewiki_web.Accounts.Models.{HiveUser}
use hivewiki_web.Accounts.Directory.{Directory, user_by_id, user_by_id-save_user, map_option}
use hivewiki_web.Accounts.OAuth.{text_or_empty}
use hivewiki_web.Accounts.OAuth.SignUp.Outcomes.{AreUnique}
use hivewiki_web.Accounts.Middleware.{granted}
use hivewiki_web.Accounts.Forms.{
  Field, username, email, profile_image, FormError, CleanedProfile, clean_username, clean_email,
  clean_profile_image, starts_with_text, rstrip_slash, profile_checked, profile_edit_form,
}
use hivewiki_web.Accounts.Forms.Views.{
  FormResponse, form_errors, saved, save_profile, profile_edit_view,
}
use hivewiki_web.Accounts.Forms.Valid.{
  clean_with_lem, clean_username_lem, clean_email_lem, clean_username_text, clean_email_text,
}
use hivewiki_web.Accounts.Forms.Unique.{AreKeyed, AreUnique-save}

clean_profile_image_lem :
    (base_url : Text) (u : HiveUser) (t image : Text)
    → clean_profile_image base_url u t ≡ ok image
    → (image ≡ [])
      ⊎ (image ≡ text_or_empty u.profile_image)
      ⊎ (starts_with_text (rstrip_slash base_url ++ b'/' ∷ []) image ≡ true)
unfolding clean_profile_image
clean_profile_image_lem base_url u t image h = elim (Bool-cases (is_empty (strip t))) [
  | inl e ↦
      let done : ok [] ≡ ok image = rw (clean_profile_image, e) at h in
      let same : [] ≡ image = cc (done) in inl (sym same)
  | inr e ↦ elim (Bool-cases (text_eq (strip t) (text_or_empty u.profile_image))) [
    | inl g ↦
        let done : ok (strip t) ≡ ok image = rw (clean_profile_image, e, g) at h in
        let same : strip t ≡ image = cc (done) in
        inr (inl (sym same ∙ eq_of_text_eq (strip t) (text_or_empty u.profile_image) g))
    | inr g ↦
        let base = rstrip_slash base_url in
        elim (Bool-cases (is_empty base || not (starts_with_text (base ++ b'/' ∷ []) (strip t)))) [
          | inl j ↦ let refused = rw (clean_profile_image, e, g, j) at h in cc (refused)
          | inr j ↦
              let done : ok (strip t) ≡ ok image = rw (clean_profile_image, e, g, j) at h in
              let same : strip t ≡ image = cc (done) in
              inr (
                inr (
                  ap (λ (x : Text). starts_with_text (base ++ b'/' ∷ []) x) (sym same)
                  ∙ right_holds (is_empty base) (starts_with_text (base ++ b'/' ∷ []) (strip t)) j))
        ]
  ]
]
  where
    right_holds : (a b : Bool) → a || not b ≡ false → b ≡ true
    right_holds true b h = cc (h)
    right_holds false true h = refl
    right_holds false false h = cc (h)

empty_lem : (t : Text) → is_empty t ≡ true → [] ≡ t
empty_lem [] h = refl
empty_lem (c ∷ t) h = cc (h)

clean_profile_image_text :
    (base_url : Text) (u : HiveUser) (t image : Text)
    → clean_profile_image base_url u t ≡ ok image
    → image ≡ strip t
unfolding clean_profile_image
clean_profile_image_text base_url u t image h = elim (Bool-cases (is_empty (strip t))) [
  | inl e ↦
      let done : ok [] ≡ ok image = rw (clean_profile_image, e) at h in
      let same : [] ≡ image = cc (done) in sym same ∙ empty_lem (strip t) e
  | inr e ↦ elim (Bool-cases (text_eq (strip t) (text_or_empty u.profile_image))) [
    | inl g ↦ let done : ok (strip t) ≡ ok image = rw (clean_profile_image, e, g) at h in cc (done)
    | inr g ↦
        let base = rstrip_slash base_url in
        elim (Bool-cases (is_empty base || not (starts_with_text (base ++ b'/' ∷ []) (strip t)))) [
          | inl j ↦ let refused = rw (clean_profile_image, e, g, j) at h in cc (refused)
          | inr j ↦
              let done : ok (strip t) ≡ ok image = rw (clean_profile_image, e, g, j) at h in
              cc (done)
        ]
  ]
]

module _ (clean_field : Field → Text → Option Text) (fold_char : ℕ → ℕ) (lower : Text → Text)
    (validate_password : Text → Text → Text → Bool) (make_password : Text → Text) where
  profile_checked_lem :
      (u e i : Result FormError Text) (p : CleanedProfile)
      → profile_checked clean_field fold_char lower validate_password u e i ≡ ok p
      → (u ≡ ok p.username) × (e ≡ ok p.email) × (i ≡ ok p.profile_image)
  profile_checked_lem (err _) e i p h = cc (h)
  profile_checked_lem (ok u) (err _) i p h = cc (h)
  profile_checked_lem (ok u) (ok e) (err _) p h = cc (h)
  profile_checked_lem (ok u) (ok e) (ok i) p h =
      let cleaned : CleanedProfile = record { username = u; email = e; profile_image = i } in
      let same : cleaned ≡ p = cc (h) in
      (
        ap (λ (x : CleanedProfile). ok x.username) same,
        ap (λ (x : CleanedProfile). ok x.email) same,
        ap (λ (x : CleanedProfile). ok x.profile_image) same,
      )

  -- The image of a profile: none, the one that it had, or one under the address of the uploads.
  abbrev pub IsImageOf : Text → HiveUser → Text → Type 0
  IsImageOf base_url u image =
      (image ≡ [])
      ⊎ (image ≡ text_or_empty u.profile_image)
      ⊎ (starts_with_text (rstrip_slash base_url ++ b'/' ∷ []) image ≡ true)

  -- What the form makes of the posted name, email and image, each as its field gives it.
  abbrev pub IsPosted : Text → Text → Text → CleanedProfile → Type 0
  IsPosted name address image p =
      ((x : Text) × (clean_field username name ≡ some x) × (p.username ≡ strip x))
      × ((y : Text) × (clean_field email address ≡ some y) × (p.email ≡ lower (strip y)))
      × ((z : Text) × (clean_field profile_image image ≡ some z) × (p.profile_image ≡ strip z))

  abbrev pub IsEdited :
      Text → Text → Text → Text → HiveUser → Directory → FormResponse × Directory → Type 0
  IsEdited base_url name address image u db r =
      ((es : List FormError) × (r ≡ (form_errors es, db)))
      ⊎ ((p : CleanedProfile) × (r ≡ (saved u, record db { users = r.1.users }))
          × IsPosted name address image p
          × (user_by_id u.id r.1.users
              ≡ map_option
                  (λ (v : HiveUser). record v {
                    username = p.username;
                    email = p.email;
                    profile_image = some p.profile_image;
                  })
                  (user_by_id u.id db.users))
          × IsImageOf base_url u p.profile_image
          × (AreUnique fold_char db.users → AreUnique fold_char r.1.users)
          × ((j : ℕ) → (u.id == j) ≡ false → user_by_id j r.1.users ≡ user_by_id j db.users))

  -- Let the ids of the users be a primary key. A user who posts the profile is told the errors of the form,
  -- and then nothing is written; or the row gets the name, the email and the image that were posted, as
  -- the fields of the form give them, without the space at their ends and the email in lower case, and
  -- no other row and no other table changes. Then the image is empty, the one that the user had, or under the address of the
  -- uploads, and no two users get one name or one email, but for case, if none had one.
  pub profile_edit_view_lem :
      (base_url name address image : Text) (u : HiveUser) (db : Directory)
      → AreKeyed db.users
      → IsEdited base_url name address image u db (
          profile_edit_view clean_field fold_char lower validate_password make_password base_url
            name address image
            (granted u)
            db)
  unfolding profile_edit_view profile_edit_form save_profile
  profile_edit_view_lem base_url name address image u db keyed =
      elim (Result-cases (
        profile_edit_form clean_field fold_char lower validate_password base_url db.users u name
          address image)) [
            | inl (es, refused) ↦ inl (es, rw (profile_edit_view, refused) refl)
            | inr (p, accepted) ↦
                let is_instance = λ (v : HiveUser). v.id == u.id in
                let (n, e, i) = profile_checked_lem _ _ _ p accepted in
                let (x, fielded, named) =
                  clean_with_lem username (clean_username fold_char lower db.users is_instance)
                    (clean_field username name) p.username n in
                let (y, fielded', addressed) =
                  clean_with_lem email (clean_email fold_char lower db.users is_instance)
                    (clean_field email address) p.email e in
                let (z, fielded'', imaged) =
                  clean_with_lem profile_image (clean_profile_image base_url u)
                    (clean_field profile_image image) p.profile_image i in
                let write = λ (v : HiveUser). record v {
                  username = p.username;
                  email = p.email;
                  profile_image = some p.profile_image;
                } in
                inr (
                  p,
                  rw (profile_edit_view, accepted) refl,
                  (
                    (
                      x,
                      fielded,
                      clean_username_text fold_char lower db.users is_instance x p.username named,
                    ),
                    (
                      y,
                      fielded',
                      clean_email_text fold_char lower db.users is_instance y p.email addressed,
                    ),
                    (z, fielded'', clean_profile_image_text base_url u z p.profile_image imaged),
                  ),
                  rw
                      (
                        profile_edit_view,
                        accepted,
                        user_by_id-save_user u.id u.id write db.users (λ v. refl),
                        ==_refl,
                      )
                      refl,
                  clean_profile_image_lem base_url u z p.profile_image imaged,
                  λ unique.
                      rw (profile_edit_view, accepted)
                        (AreUnique-save fold_char u.id write p.username p.email (λ v. refl)
                          (λ v. refl) db.users keyed
                          (clean_username_lem fold_char lower db.users is_instance x p.username
                            named)
                          (clean_email_lem fold_char lower db.users is_instance y p.email addressed)
                          unique),
                  λ j other.
                      rw
                        (
                          profile_edit_view,
                          accepted,
                          user_by_id-save_user u.id j write db.users (λ v. refl),
                          other,
                        )
                        refl,
                )
          ]
