-- ===== src/Accounts/OAuthFlow/Confirm.antt =====
-- oauth_confirm_existing_account_view of apps/accounts/views.py: the confirmation of a login to an
-- account that the email of the profile found.
use hivewiki_web.Base.{
  ℕ, not, ◌&&◌, Option, none, some, List, ◌==◌, if◌then◌else◌, first_of_rows, Result, ok, err,
}
use hivewiki_web.Base.Text.{Text, codes, text_eq}
use hivewiki_web.Django.Cache.{Cache}
use hivewiki_web.Django.Signing.{SigningError, signature_expired, Signing}
use hivewiki_web.Accounts.Models.{HiveUser, OAuthAccount, is_active}
use hivewiki_web.Accounts.Directory.{Directory}
use hivewiki_web.Accounts.OAuth.{LinkError, does_not_exist, link_oauth_account_to_user}
use hivewiki_web.Accounts.OAuthFlow.{OAuthError, expired, bad_signature}
use hivewiki_web.Accounts.OAuthFlow.Views.{
  PendingConfirmation, FlowResponse, no_pending, login_error, cancelled, confirm_failed, Site,
  World, logged_in_with,
}

-- PENDING_OAUTH_CONFIRM_MAX_AGE_SECONDS
abbrev pub max_age : ℕ
max_age = 600

abbrev pub signing_error : SigningError → OAuthError
signing_error signature_expired = expired
signing_error SigningError.bad_signature = bad_signature

abbrev pub read_result :
    Result SigningError PendingConfirmation → Result OAuthError PendingConfirmation
read_result (ok p) = ok p
read_result (err e) = err (signing_error e)

module _ (site : Site) (signing : Signing PendingConfirmation) (index : Cache ℕ (List Text) ◌==◌)
    (session_cookie_age : ℕ) where
  abbrev pub confirm_result :
      ℕ
      → Text
      → HiveUser
      → Text
      → World signing index
      → Result LinkError (OAuthAccount × Directory)
      → FlowResponse × World signing index
  confirm_result now new_key u next_url w (err e) = (confirm_failed e next_url, w)
  confirm_result now new_key u next_url (i, s, db) (ok (a, db')) =
      logged_in_with site signing index session_cookie_age now new_key u next_url (i, s, db')

  -- `HiveUser.objects.get(id=…, status=UserStatus.ACTIVE)`
  abbrev pub active_user : ℕ → List HiveUser → Option HiveUser
  active_user id = first_of_rows (λ u. u.id == id && is_active u.status)

  unfoldable pub confirm_for :
      ℕ
      → Text
      → ℕ
      → PendingConfirmation
      → World signing index
      → Option HiveUser
      → FlowResponse × World signing index
  confirm_for now new_key id p w none = (confirm_failed does_not_exist p.next_url, w)
  confirm_for now new_key id p (i, s, db) (some u) =
      confirm_result now new_key u p.next_url (i, s, db)
        (link_oauth_account_to_user site.lower now id u.id p.provider p.profile db)

  abbrev pub decided :
      ℕ
      → Text
      → ℕ
      → Text
      → World signing index
      → Result OAuthError PendingConfirmation
      → FlowResponse × World signing index
  decided now new_key id decision w (err e) = (login_error e, w)
  decided now new_key id decision (i, s, db) (ok p) =
      if not (text_eq decision (codes "confirm"))
      then (cancelled p.next_url, (i, s, db))
      else confirm_for now new_key id p (i, s, db) (active_user p.user_id db.users)

  unfoldable pub confirm_pending :
      ℕ
      → Text
      → ℕ
      → Text
      → World signing index
      → Option signing.Token
      → FlowResponse × World signing index
  confirm_pending now new_key id decision w none = (no_pending, w)
  confirm_pending now new_key id decision (i, s, db) (some token) =
      decided now new_key id decision (i, record s { pending = none }, db)
        (read_result (signing.loads max_age now token))

  unfoldable pub oauth_confirm_existing_account_view :
      ℕ → Text → ℕ → Text → World signing index → FlowResponse × World signing index
  oauth_confirm_existing_account_view now new_key id decision (i, s, db) =
      confirm_pending now new_key id decision (i, s, db) s.pending
