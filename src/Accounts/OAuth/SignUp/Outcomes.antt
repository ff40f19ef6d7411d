-- ===== src/Accounts/OAuth/SignUp/Outcomes.antt =====
-- What a sign-up or login by OAuth guarantees.
use Prim.{tt}
use hivewiki_web.Base.{
  ℕ, ◌≡◌, refl, sym, ap, ◌∙◌, Bool, false, not, ◌&&◌, ◌||◌, Option, none, some, List, [], ◌∷◌, ◌==◌,
  first_of_rows, first_apart, any_apart, update_of, any_of, Result, ok, Bool-cases, Option-cases,
  inl, inr,
}
use hivewiki_web.Base.Text.{Text, IsDigit, strip, is_empty}
use hivewiki_web.Accounts.Models.{
  HiveUser, OAuthAccount, OAuthProvider, same_provider, active, is_active,
}
use hivewiki_web.Accounts.Directory.{Directory, user_by_id, save_user, id-user_by_id}
use hivewiki_web.Accounts.OAuth.{
  Profile, text_or_empty, account_of, refreshed, new_account, sync_profile_image_from_oauth_profile,
}
use hivewiki_web.Accounts.OAuth.Usernames.{iexact, is_taken_name}
use hivewiki_web.Accounts.OAuth.Usernames.Fresh.{build_unique_username_total}
use hivewiki_web.Accounts.OAuth.Owners.{
  owner_of, owner_of-refreshed, IsLinkedOnce-refreshed, no_clash,
}
use hivewiki_web.Accounts.OAuth.Links.{
  IsLinking, accounts-sync, owner_of-known, owner_of-new, active-of-is_active,
}
use hivewiki_web.Accounts.OAuth.SignUp.{
  SignUpError, hint_of, new_user, known_account, new_account_for, by_account,
  get_or_create_user_from_oauth_profile,
}

module _ (fold_char : ℕ → ℕ) where
  -- Two users with one name or one email, but for case.
  abbrev pub is_namesake : HiveUser → HiveUser → Bool
  is_namesake u v = iexact fold_char v.username u.username || iexact fold_char v.email u.email

  abbrev pub AreUnique : List HiveUser → Type 0
  AreUnique [] = Unit
  AreUnique (u ∷ us) = (any_of (is_namesake u) us ≡ false) × AreUnique us

  no_namesake :
      (u : HiveUser) (us : List HiveUser)
      → is_taken_name fold_char us u.username ≡ false
      → first_of_rows (λ v. iexact fold_char v.email u.email) us ≡ none
      → any_of (is_namesake u) us ≡ false
  no_namesake u [] h k = refl
  no_namesake u (v ∷ us) h k =
      let (no_name, h') = any_apart (λ w. iexact fold_char w.username u.username) v us h in
      let (no_email, k') = first_apart (λ w. iexact fold_char w.email u.email) v us k in
      rw (no_name, no_email, no_namesake u us h' k') refl

  any_of-namesake :
      (id : ℕ) (f : HiveUser → HiveUser) (u : HiveUser) (us : List HiveUser)
      → ((v : HiveUser) → (f v).username ≡ v.username)
      → ((v : HiveUser) → (f v).email ≡ v.email)
      → any_of (is_namesake u) (save_user id f us) ≡ any_of (is_namesake u) us
  any_of-namesake id f u [] n e = refl
  any_of-namesake id f u (v ∷ us) n e =
      let ih = any_of-namesake id f u us n e in
      elim (Bool-cases (v.id == id)) [
        | inl same ↦ rw (same, n v, e v, ih) refl
        | inr other ↦ rw (other, ih) refl
      ]

  AreUnique-save_user :
      (id : ℕ) (f : HiveUser → HiveUser) (us : List HiveUser)
      → ((v : HiveUser) → (f v).username ≡ v.username)
      → ((v : HiveUser) → (f v).email ≡ v.email)
      → AreUnique us
      → AreUnique (save_user id f us)
  AreUnique-save_user id f [] n e h = tt
  AreUnique-save_user id f (v ∷ us) n e (d, h) =
      let rest = AreUnique-save_user id f us n e h in
      elim (Bool-cases (v.id == id)) [
        | inl same ↦ rw (same, n v, e v) (any_of-namesake id f v us n e ∙ d, rest)
        | inr other ↦ rw other (any_of-namesake id f v us n e ∙ d, rest)
      ]

  AreUnique-sync :
      (now : ℕ) (u : HiveUser) (profile : Profile) (db : Directory)
      → AreUnique db.users
      → AreUnique (sync_profile_image_from_oauth_profile now u profile db).users
  unfolding sync_profile_image_from_oauth_profile
  AreUnique-sync now u profile db h =
      let image = strip (text_or_empty profile.profile_image) in
      let kept =
        AreUnique-save_user u.id (λ v. record v { profile_image = some image; updated_at = now })
          db.users (λ v. refl) (λ v. refl) h in
      elim (Bool-cases (not (is_empty (text_or_empty u.profile_image)) || is_empty image)) [
        | inl same ↦ rw same h
        | inr other ↦ rw other kept
      ]

  -- What a call that returns a user guarantees: the user is active, the account of the profile belongs
  -- to that user and every other one to whom it did, and no two users got one name or one email.
  abbrev pub IsSignedUp : OAuthProvider → Profile → Directory → HiveUser → Directory → Type 0
  IsSignedUp provider profile db u db' =
      (u.status ≡ active)
      × IsLinking u.id provider profile.provider_user_id db.oauth_accounts db'.oauth_accounts
      × (AreUnique db.users → AreUnique db'.users)

  known_account-IsSignedUp :
      (now : ℕ) (provider : OAuthProvider) (profile : Profile) (db db' : Directory)
      (a : OAuthAccount) (u : HiveUser)
      → account_of provider profile.provider_user_id db.oauth_accounts ≡ some a
      → known_account now profile db a (user_by_id a.user_id db.users) ≡ ok (u, db')
      → IsSignedUp provider profile db u db'
  unfolding known_account
  known_account-IsSignedUp now provider profile db db' a u found done =
      elim (Option-cases (user_by_id a.user_id db.users)) [
        | inl e ↦ let no = rw (known_account, e) at done in cc (no)
        | inr (v, e) ↦ elim (Bool-cases (is_active v.status)) [
          | inr off ↦ let no = rw (known_account, e, off) at done in cc (no)
          | inl on ↦
              let kept = update_of (λ b. b.id == a.id) (refreshed now profile) db.oauth_accounts in
              let written : Directory = record db { oauth_accounts = kept } in
              let synced = sync_profile_image_from_oauth_profile now v profile written in
              let both : ◌≡◌ {A = Result SignUpError (HiveUser × Directory)} (ok (v, synced))
                  (ok (u, db')) =
                rw (known_account, e, on) at done in
              let same_user : v ≡ u = cc (both) in
              let same_db : synced ≡ db' = cc (both) in
              let owner : owner_of provider profile.provider_user_id db.oauth_accounts ≡ some v.id =
                rw found (ap some (sym (id-user_by_id a.user_id db.users v e))) in
              rw (← same_user, ← same_db, accounts-sync now v profile written)
                (
                  active-of-is_active v.status on,
                  (
                    λ p i.
                        owner_of-refreshed now a.id profile p i db.oauth_accounts
                        ∙ owner_of-known v.id provider p profile.provider_user_id i
                            db.oauth_accounts owner,
                    IsLinkedOnce-refreshed now a.id profile db.oauth_accounts,
                  ),
                  AreUnique-sync now v profile written,
                )
        ]
      ]

  any_of-weaker :
      (user_id : ℕ) (provider : OAuthProvider) (rows : List OAuthAccount)
      → any_of (λ a. a.user_id == user_id) rows ≡ false
      → any_of (λ a. a.user_id == user_id && same_provider a.provider provider) rows ≡ false
  any_of-weaker user_id provider [] h = refl
  any_of-weaker user_id provider (a ∷ rows) h =
      let (other, h') = any_apart (λ b. b.user_id == user_id) a rows h in
      rw (other, any_of-weaker user_id provider rows h') refl

  module _ (keeps : (c : ℕ) → IsDigit c → fold_char c ≡ c) (is_alnum : ℕ → Bool)
      (lower : Text → Text) where
    new_account_for-IsSignedUp :
        (now user_id id : ℕ) (provider : OAuthProvider) (profile : Profile) (db db' : Directory)
        (u : HiveUser)
        → any_of (λ a. a.user_id == user_id) db.oauth_accounts ≡ false
        → account_of provider profile.provider_user_id db.oauth_accounts ≡ none
        → new_account_for fold_char is_alnum lower now user_id id provider profile db
            (first_of_rows (λ v. iexact fold_char v.email profile.email) db.users)
          ≡ ok (u, db')
        → IsSignedUp provider profile db u db'
    unfolding new_account_for
    new_account_for-IsSignedUp now user_id id provider profile db db' u fresh found done =
        elim (Option-cases (first_of_rows (λ v. iexact fold_char v.email profile.email) db.users)) [
          | inr (v, e) ↦ elim (Bool-cases (is_active v.status)) [
            | inr off ↦ let no = rw (new_account_for, e, off) at done in cc (no)
            | inl on ↦ let no = rw (new_account_for, e, on) at done in cc (no)
          ]
          | inl e ↦
              let (name, searched, free) =
                build_unique_username_total fold_char keeps is_alnum lower
                  (hint_of profile profile.username_hint) db.users in
              let new = new_user now user_id name profile in
              let account = new_account now id new provider profile in
              let written : Directory = record {
                users = new ∷ db.users;
                oauth_accounts = account ∷ db.oauth_accounts;
              } in
              let both : ◌≡◌ {A = Result SignUpError (HiveUser × Directory)} (ok (new, written))
                  (ok (u, db')) =
                rw (new_account_for, e, searched) at done in
              let same_user : new ≡ u = cc (both) in
              let same_db : written ≡ db' = cc (both) in
              rw (← same_user, ← same_db)
                (
                  refl,
                  (
                    λ p i. owner_of-new account p i db.oauth_accounts,
                    λ once. (
                      no_clash now id new provider profile db.oauth_accounts found
                          (any_of-weaker user_id provider db.oauth_accounts fresh),
                      once,
                    ),
                  ),
                  λ unique. (no_namesake new db.users free e, unique),
                )
        ]

    by_account-IsSignedUp :
        (now user_id id : ℕ) (provider : OAuthProvider) (profile : Profile) (db db' : Directory)
        (u : HiveUser) (o : Option OAuthAccount)
        → any_of (λ a. a.user_id == user_id) db.oauth_accounts ≡ false
        → account_of provider profile.provider_user_id db.oauth_accounts ≡ o
        → by_account fold_char is_alnum lower now user_id id provider profile db o ≡ ok (u, db')
        → IsSignedUp provider profile db u db'
    unfolding by_account
    by_account-IsSignedUp now user_id id provider profile db db' u (some a) fresh found done =
        known_account-IsSignedUp now provider profile db db' a u found done
    by_account-IsSignedUp now user_id id provider profile db db' u none fresh found done =
        new_account_for-IsSignedUp now user_id id provider profile db db' u fresh found done

    -- Let `fold_char` keep the digits, and let no account belong to the key of the new row. A call that
    -- returns a user returns an active one; afterwards the account of the profile belongs to that
    -- user and every other one to whom it did, no link is doubled if none was, and if no two users had
    -- one name or one email, but for case, then no two have.
    pub get_or_create_user_from_oauth_profile_lem :
        (now user_id id : ℕ) (provider : OAuthProvider) (profile : Profile) (db db' : Directory)
        (u : HiveUser)
        → any_of (λ a. a.user_id == user_id) db.oauth_accounts ≡ false
        → get_or_create_user_from_oauth_profile fold_char is_alnum lower now user_id id provider
            profile db
          ≡ ok (u, db')
        → IsSignedUp provider profile db u db'
    unfolding get_or_create_user_from_oauth_profile
    get_or_create_user_from_oauth_profile_lem now user_id id provider profile db db' u fresh done =
        by_account-IsSignedUp now user_id id provider profile db db' u
          (account_of provider profile.provider_user_id db.oauth_accounts) fresh refl done
