-- ===== src/Accounts/OAuth/Links.antt =====
-- Linking: who may, whom an account belongs to afterwards, and that each link stands once.
use hivewiki_web.Base.{
  ℕ, ◌≡◌, refl, sym, subst, ap, ◌∙◌, true, ◌&&◌, Option, none, some, List, ◌∷◌, arith, ◌==◌,
  if◌then◌else◌, update_of, any_of, Result, ok, Bool-cases, Option-cases, inl, inr,
}
use hivewiki_web.Base.Text.{Text, text_eq, eq_of_text_eq, strip}
use hivewiki_web.Accounts.Models.{
  HiveUser, OAuthAccount, OAuthProvider, same_provider, google, github, active, suspended, deleted,
  is_active, UserStatus,
}
use hivewiki_web.Accounts.Directory.{Directory, user_by_id, id-user_by_id}
use hivewiki_web.Accounts.OAuth.{
  Profile, LinkError, account_of, refreshed, new_account, sync_profile_image_from_oauth_profile,
  link_found, link_locked_user, link_oauth_account_to_user,
}
use hivewiki_web.Accounts.OAuth.Owners.{
  owner_of, IsLinkedOnce, owner_of-refreshed, IsLinkedOnce-refreshed, no_clash,
}

pub accounts-sync :
    (now : ℕ) (u : HiveUser) (profile : Profile) (db : Directory)
    → (sync_profile_image_from_oauth_profile now u profile db).oauth_accounts ≡ db.oauth_accounts
unfolding sync_profile_image_from_oauth_profile
accounts-sync now u profile db = ground arith

same_provider_refl : (p : OAuthProvider) → same_provider p p ≡ true
same_provider_refl google = refl
same_provider_refl github = refl

eq_of_same_provider : (p q : OAuthProvider) → same_provider p q ≡ true → p ≡ q
eq_of_same_provider google google h = refl
eq_of_same_provider github github h = refl
eq_of_same_provider google github h = cc (h)
eq_of_same_provider github google h = cc (h)

pub active-of-is_active : (s : UserStatus) → is_active s ≡ true → s ≡ active
active-of-is_active active h = refl
active-of-is_active suspended h = cc (h)
active-of-is_active deleted h = cc (h)

-- What a link that succeeds does to the table: the owners, and that no link is doubled.
abbrev pub IsLinking : ℕ → OAuthProvider → Text → List OAuthAccount → List OAuthAccount → Type 0
IsLinking user_id provider id before after =
    ((p : OAuthProvider) (i : Text)
      → owner_of p i after
        ≡ (if same_provider provider p && text_eq id i then some user_id else owner_of p i before))
    × (IsLinkedOnce before → IsLinkedOnce after)

pub owner_of-known :
    (u : ℕ) (provider p : OAuthProvider) (id i : Text) (rows : List OAuthAccount)
    → owner_of provider id rows ≡ some u
    → owner_of p i rows
      ≡ (if same_provider provider p && text_eq id i then some u else owner_of p i rows)
owner_of-known u provider p id i rows h =
    elim (Bool-cases (same_provider provider p && text_eq id i)) [
      | inl e ↦
          let same_p = eq_of_same_provider provider p (ground arith) in
          let same_i = eq_of_text_eq id i (ground arith) in rw (e, sym same_p, sym same_i) h
      | inr e ↦ rw e
    ]

pub owner_of-new :
    (a : OAuthAccount) (p : OAuthProvider) (i : Text) (rows : List OAuthAccount)
    → owner_of p i (a ∷ rows) ≡ (
        if same_provider a.provider p && text_eq a.provider_user_id i
        then some a.user_id
        else owner_of p i rows)
owner_of-new a p i rows = ground arith

pub eq-of-== : (a b : ℕ) → (a == b) ≡ true → a ≡ b
eq-of-== a b h = ground arith

ok_accounts :
    (now : ℕ) (u : HiveUser) (profile : Profile) (written db' : Directory) (x a : OAuthAccount)
    → ◌≡◌ {A = Result LinkError (OAuthAccount × Directory)}
        (ok (x, sync_profile_image_from_oauth_profile now u profile written))
        (ok (a, db'))
    → db'.oauth_accounts ≡ written.oauth_accounts
ok_accounts now u profile written db' x a h =
    let same : sync_profile_image_from_oauth_profile now u profile written ≡ db' = cc (h) in
    sym (ap (λ (d : Directory). d.oauth_accounts) same) ∙ accounts-sync now u profile written

link_found-IsLinking :
    (now id : ℕ) (u : HiveUser) (provider : OAuthProvider) (profile : Profile) (db db' : Directory)
    (o : Option OAuthAccount) (a : OAuthAccount)
    → account_of provider profile.provider_user_id db.oauth_accounts ≡ o
    → link_found now id u provider profile db o ≡ ok (a, db')
    → IsLinking u.id provider profile.provider_user_id db.oauth_accounts db'.oauth_accounts
unfolding link_found
link_found-IsLinking now id u provider profile db db' (some b) a found linked =
    elim (Bool-cases (b.user_id == u.id)) [
      | inl e ↦
          let done = rw (link_found, e) at linked in
          let kept = update_of (λ c. c.id == b.id) (refreshed now profile) db.oauth_accounts in
          let after : db'.oauth_accounts ≡ kept =
            ok_accounts now u profile (record db { oauth_accounts = kept }) db'
              (refreshed now profile b) a done in
          let owner : owner_of provider profile.provider_user_id db.oauth_accounts ≡ some u.id =
            rw found (ap some (eq-of-== b.user_id u.id e)) in
          rw after (
            λ p i.
                owner_of-refreshed now b.id profile p i db.oauth_accounts
                ∙ owner_of-known u.id provider p profile.provider_user_id i db.oauth_accounts owner,
            IsLinkedOnce-refreshed now b.id profile db.oauth_accounts,
          )
      | inr e ↦ let no = rw (link_found, e) at linked in cc (no)
    ]
link_found-IsLinking now id u provider profile db db' none a found linked =
    let doubled =
      any_of (λ b. b.user_id == u.id && same_provider b.provider provider) db.oauth_accounts in
    elim (Bool-cases doubled) [
      | inl e ↦ let no = rw (link_found, e) at linked in cc (no)
      | inr e ↦
          let done = rw (link_found, e) at linked in
          let new = new_account now id u provider profile in
          let after : db'.oauth_accounts ≡ new ∷ db.oauth_accounts =
            ok_accounts now u profile (record db { oauth_accounts = new ∷ db.oauth_accounts }) db'
              new a done in
          rw after (
            λ p i. owner_of-new new p i db.oauth_accounts,
            λ once. (no_clash now id u provider profile db.oauth_accounts found e, once),
          )
    ]

module _ (lower : Text → Text) where
  guards_passed :
      (now id : ℕ) (u : HiveUser) (provider : OAuthProvider) (profile : Profile)
      (db db' : Directory) (a : OAuthAccount)
      → link_locked_user lower now id u provider profile db ≡ ok (a, db')
      → (is_active u.status ≡ true)
        × (text_eq (lower (strip u.email)) (lower (strip profile.email)) ≡ true)
        × (link_found now id u provider profile db
              (account_of provider profile.provider_user_id db.oauth_accounts)
            ≡ ok (a, db'))
  unfolding link_locked_user
  guards_passed now id u provider profile db db' a h = elim (Bool-cases (is_active u.status)) [
    | inr e ↦ let no = rw (link_locked_user, e) at h in cc (no)
    | inl e ↦ elim (Bool-cases (text_eq (lower (strip u.email)) (lower (strip profile.email)))) [
      | inr f ↦ let no = rw (link_locked_user, e, f) at h in cc (no)
      | inl f ↦ (e, f, let found = rw (link_locked_user, e, f) at h in found)
    ]
  ]

  -- A call that succeeds has found the user active and with the email of the profile, but for case and
  -- space at its ends. Afterwards the account belongs to that user, every other account of any provider
  -- belongs to whom it did, and if no two accounts of one provider had the same user or the same
  -- id, none have.
  pub link_oauth_account_to_user_lem :
      (now id user_id : ℕ) (provider : OAuthProvider) (profile : Profile) (db db' : Directory)
      (a : OAuthAccount)
      → link_oauth_account_to_user lower now id user_id provider profile db ≡ ok (a, db')
      → ((u : HiveUser) × (user_by_id user_id db.users ≡ some u)
          × (u.status ≡ active)
          × (text_eq (lower (strip u.email)) (lower (strip profile.email)) ≡ true))
        × IsLinking user_id provider profile.provider_user_id db.oauth_accounts db'.oauth_accounts
  unfolding link_oauth_account_to_user link_locked_user
  link_oauth_account_to_user_lem now id user_id provider profile db db' a linked =
      elim (Option-cases (user_by_id user_id db.users)) [
        | inl e ↦ let no = rw (link_oauth_account_to_user, e) at linked in cc (no)
        | inr (u, e) ↦
            let locked : link_locked_user lower now id u provider profile db ≡ ok (a, db') =
              rw (link_oauth_account_to_user, e) at linked in
            let (is_on, same_email, found) =
              guards_passed now id u provider profile db db' a locked in
            let same_id = id-user_by_id user_id db.users u e in
            (
              (u, e, active-of-is_active u.status is_on, same_email),
              subst
                  (λ n.
                    IsLinking n provider profile.provider_user_id db.oauth_accounts
                      db'.oauth_accounts)
                  same_id
                  (link_found-IsLinking now id u provider profile db db'
                    (account_of provider profile.provider_user_id db.oauth_accounts) a refl found),
            )
      ]
