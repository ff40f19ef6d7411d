-- ===== src/Accounts/Login/Credentials.antt =====
-- What `authenticate_user` has tested when it returns a user.
use hivewiki_web.Base.{
  ℕ, ◌≤◌, ◌≡◌, subst, any_of, Bool, true, false, ◌&&◌, Option, none, some, List, [], ◌∷◌, arith,
  ◌==◌, leb, Bool-cases, inl, inr,
}
use hivewiki_web.Base.Text.{Text, is_empty}
use hivewiki_web.Accounts.Models.{HiveUser, OAuthAccount, active, is_active}
use hivewiki_web.Accounts.OAuth.{text_or_empty}
use hivewiki_web.Accounts.OAuth.Links.{active-of-is_active}
use hivewiki_web.Accounts.Login.{logged_in, get_active_user_by_email, verify_found, failure_of}

pub le→leb : (a b : ℕ) → a ≤ b → leb a b ≡ true
le→leb a b h = ground arith

-- The row that the email finds is active, and its hash is there and fits the password.
abbrev pub IsCredential :
    (iexact check_password : Text → Text → Bool) → Text → Text → List HiveUser → HiveUser → Type 0
IsCredential iexact check_password email password users u =
    (get_active_user_by_email iexact email users ≡ some u)
    × (is_empty (text_or_empty u.password_hash) ≡ false)
    × (check_password password (text_or_empty u.password_hash) ≡ true)

pub verify_lem :
    (iexact check_password : Text → Text → Bool) (password : Text) (o : Option HiveUser)
    (u : HiveUser)
    → verify_found iexact check_password password o ≡ some u
    → (o ≡ some u)
      × (is_empty (text_or_empty u.password_hash) ≡ false)
      × (check_password password (text_or_empty u.password_hash) ≡ true)
verify_lem iexact check_password password none u h = cc (h)
verify_lem iexact check_password password (some v) u h =
    elim (Bool-cases (is_empty (text_or_empty v.password_hash))) [
      | inl e ↦ let no = rw e at h in cc (no)
      | inr e ↦ elim (Bool-cases (check_password password (text_or_empty v.password_hash))) [
        | inr f ↦ let no = rw (e, f) at h in cc (no)
        | inl f ↦
            let done = rw (e, f) at h in
            let same : v ≡ u = cc (done) in
            (
              done,
              subst (λ (w : HiveUser). is_empty (text_or_empty w.password_hash) ≡ false) same e,
              subst
                  (λ (w : HiveUser). check_password password (text_or_empty w.password_hash) ≡ true)
                  same f,
            )
      ]
    ]

pub active_found :
    (iexact : Text → Text → Bool) (email : Text) (users : List HiveUser) (u : HiveUser)
    → get_active_user_by_email iexact email users ≡ some u
    → (iexact u.email email ≡ true) × (u.status ≡ active)
unfolding get_active_user_by_email
active_found iexact email [] u h = cc (h)
active_found iexact email (v ∷ users) u h = elim (Bool-cases (iexact v.email email)) [
  | inr e ↦
      let later = rw (get_active_user_by_email, e) at h in active_found iexact email users u later
  | inl e ↦ elim (Bool-cases (is_active v.status)) [
    | inr f ↦
        let later = rw (get_active_user_by_email, e, f) at h in
        active_found iexact email users u later
    | inl f ↦
        let found = rw (get_active_user_by_email, e, f) at h in
        let same : v ≡ u = cc (found) in
        (
          subst (λ (w : HiveUser). iexact w.email email ≡ true) same e,
          active-of-is_active u.status (subst (λ (w : HiveUser). is_active w.status ≡ true) same f),
        )
  ]
]

pub not_logged_in :
    (o : Option HiveUser) (accounts : List OAuthAccount) (u : HiveUser)
    → failure_of accounts o ≡ logged_in u
    → ⊥
not_logged_in none accounts u h = cc (h)
not_logged_in (some v) accounts u h = elim (Bool-cases (is_active v.status)) [
  | inr e ↦ let no = rw e at h in cc (no)
  | inl e ↦
      elim (Bool-cases
        (any_of (λ a. a.user_id == v.id) accounts && is_empty (text_or_empty v.password_hash))) [
          | inl f ↦ let no = rw (e, f) at h in cc (no)
          | inr f ↦ let no = rw (e, f) at h in cc (no)
        ]
]
