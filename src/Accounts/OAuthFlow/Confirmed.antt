-- ===== src/Accounts/OAuthFlow/Confirmed.antt =====
-- Who is logged in by a confirmation.
use hivewiki_web.Base.{
  ℕ, ◌≡◌, refl, sym, ap, ◌∙◌, subst, true, ◌&&◌, Option, none, some, List, ◌==◌,
  first_of_rows-holds, ok, Result-cases, Option-cases, Bool-cases, inl, inr,
}
use hivewiki_web.Base.Text.{Text, codes, text_eq, eq_of_text_eq, strip}
use hivewiki_web.Django.Cache.{Cache}
use hivewiki_web.Django.Signing.{Signing}
use hivewiki_web.Accounts.Models.{HiveUser, active, is_active}
use hivewiki_web.Accounts.OAuth.{link_oauth_account_to_user}
use hivewiki_web.Accounts.OAuth.Links.{eq-of-==, IsLinking, link_oauth_account_to_user_lem}
use hivewiki_web.Accounts.OAuthFlow.Views.{PendingConfirmation, logged_in, Site, World}
use hivewiki_web.Accounts.OAuthFlow.Confirm.{
  max_age, active_user, confirm_for, confirm_pending, oauth_confirm_existing_account_view,
}
use hivewiki_web.Accounts.OAuthFlow.Outcomes.{logged_user}
use hivewiki_web.Accounts.OAuthFlow.Linked.{left_holds, active-user_by_id, is_active-of-active}
use hivewiki_web.Accounts.OAuthFlow.Logins.{IsSessionOf, logged_in_with_lem}

module _ (site : Site) (signing : Signing PendingConfirmation) (index : Cache ℕ (List Text) ◌==◌)
    (session_cookie_age : ℕ) where
  -- What a confirmed login has tested, and what it did.
  abbrev pub IsConfirmedFor :
      PendingConfirmation → World signing index → HiveUser → World signing index → Type 0
  IsConfirmedFor p (i, s, db) u w' =
      (u.id ≡ p.user_id)
      × (u.status ≡ active)
      × (text_eq (site.lower (strip u.email)) (site.lower (strip p.profile.email)) ≡ true)
      × IsLinking u.id p.provider p.profile.provider_user_id db.oauth_accounts w'.2.oauth_accounts
      × IsSessionOf site signing index session_cookie_age u w'

  confirm_for-IsConfirmedFor :
      (now : ℕ) (new_key : Text) (id : ℕ) (p : PendingConfirmation) (w w' : World signing index)
      (o : Option HiveUser) (u : HiveUser) (next_url : Text)
      → active_user site signing index session_cookie_age p.user_id w.2.users ≡ o
      → confirm_for site signing index session_cookie_age now new_key id p w o
        ≡ (logged_in u next_url, w')
      → (next_url ≡ p.next_url) × IsConfirmedFor p w u w'
  unfolding confirm_for
  confirm_for-IsConfirmedFor now new_key id p w w' none u next_url query h =
      let who : none ≡ some (u, next_url) = ap (λ r. logged_user r.0) h in cc (who)
  confirm_for-IsConfirmedFor now new_key id p (i, s, db) w' (some v) u next_url query h =
      elim (Result-cases
        (link_oauth_account_to_user site.lower now id v.id p.provider p.profile db)) [
          | inl (e, raised) ↦
              let refused = rw (confirm_for, raised) at h in
              let who : none ≡ some (u, next_url) = ap (λ r. logged_user r.0) refused in cc (who)
          | inr ((a, db'), made) ↦
              let done = rw (confirm_for, made) at h in
              let (same, same_url, of_user, after) =
                logged_in_with_lem site signing index session_cookie_age now new_key u v p.next_url
                  next_url (i, s, db') w' done in
              let ((x, found, on, same_email), links) =
                link_oauth_account_to_user_lem site.lower now id v.id p.provider p.profile db db' a
                  made in
              let tested =
                first_of_rows-holds (λ y. y.id == p.user_id && is_active y.status) db.users v
                  query in
              let same_id =
                eq-of-== v.id p.user_id
                  (left_holds (v.id == p.user_id) (is_active v.status) tested) in
              let row =
                active-user_by_id p.user_id db.users v x (rw (← same_id) found)
                  (is_active-of-active x on) query
                ∙ same in
              (
                sym same_url,
                (
                  ap (λ (y : HiveUser). y.id) (sym same) ∙ same_id,
                  subst (λ (y : HiveUser). y.status ≡ active) row on,
                  subst
                      (λ (y : HiveUser).
                        text_eq (site.lower (strip y.email)) (site.lower (strip p.profile.email))
                        ≡ true)
                      row same_email,
                  subst
                      (λ (y : HiveUser).
                        IsLinking y.id p.provider p.profile.provider_user_id db.oauth_accounts
                          w'.2.oauth_accounts)
                      same (rw after links),
                  of_user,
                ),
              )
        ]

  -- The user of a confirmation that logs somebody in: the session keeps a token that is read with
  -- an age of ten minutes at most, it was confirmed, and the user signed in it is still active and still has the email of
  -- the profile, but for case and space at its ends. Afterwards the account of the profile belongs to
  -- that user and every other one to whom it did, no link is doubled if none was, and the session is
  -- the user's, with no token left in it.
  pub oauth_confirm_existing_account_view-logged_in :
      (now : ℕ) (new_key : Text) (id : ℕ) (decision : Text) (w w' : World signing index)
      (u : HiveUser) (next_url : Text)
      → oauth_confirm_existing_account_view site signing index session_cookie_age now new_key id
          decision w
        ≡ (logged_in u next_url, w')
      → (token : signing.Token) × (p : PendingConfirmation) × (w.1.pending ≡ some token)
        × (signing.loads max_age now token ≡ ok p)
        × (decision ≡ codes "confirm")
        × (next_url ≡ p.next_url)
        × IsConfirmedFor p w u w'
  unfolding oauth_confirm_existing_account_view confirm_pending
  oauth_confirm_existing_account_view-logged_in now new_key id decision (i, s, db) w' u next_url h =
      elim (Option-cases s.pending) [
        | inl e ↦
            let refused = rw (oauth_confirm_existing_account_view, e) at h in
            let who : none ≡ some (u, next_url) = ap (λ r. logged_user r.0) refused in cc (who)
        | inr (token, e) ↦ elim (Result-cases (signing.loads max_age now token)) [
          | inl (x, raised) ↦
              let refused =
                rw (oauth_confirm_existing_account_view, e, confirm_pending, raised) at h in
              let who : none ≡ some (u, next_url) = ap (λ r. logged_user r.0) refused in cc (who)
          | inr (p, read) ↦ elim (Bool-cases (text_eq decision (codes "confirm"))) [
            | inr f ↦
                let refused =
                  rw (oauth_confirm_existing_account_view, e, confirm_pending, read, f) at h in
                let who : none ≡ some (u, next_url) = ap (λ r. logged_user r.0) refused in cc (who)
            | inl f ↦
                let done =
                  rw (oauth_confirm_existing_account_view, e, confirm_pending, read, f) at h in
                let (same_url, for_user) =
                  confirm_for-IsConfirmedFor now new_key id p (i, record s { pending = none }, db)
                    w' (active_user site signing index session_cookie_age p.user_id db.users) u
                    next_url refl done in
                (token, p, e, read, eq_of_text_eq decision (codes "confirm") f, same_url, for_user)
          ]
        ]
      ]
