-- ===== src/Accounts/OAuthFlow/Outcomes.antt =====
-- What a response says, and the two ways in which the answer of a provider is taken.
use hivewiki_web.Base.{
  ℕ, ◌≡◌, ◌⊎◌, refl, sym, ap, subst, ◌∙◌, ◌||◌, Option, none, some, List, ◌==◌, ok_bind,
  Result-cases, Bool-cases, inl, inr, ok,
}
use hivewiki_web.Base.Text.{Text, is_empty}
use hivewiki_web.Django.Cache.{Cache}
use hivewiki_web.Django.Signing.{Signing}
use hivewiki_web.Accounts.Models.{HiveUser, OAuthProvider}
use hivewiki_web.Accounts.OAuth.{
  Profile, LinkError, does_not_exist, inactive_account, other_email, linked_elsewhere,
  provider_linked,
}
use hivewiki_web.Accounts.OAuth.SignUp.{SignUpError}
use hivewiki_web.Accounts.OAuthFlow.{
  OAuthProviderConfig, OAuthState, FlowSession, value_of, get_oauth_provider_config,
}
use hivewiki_web.Accounts.OAuthFlow.Exchange.{exchange_oauth_code_for_profile}
use hivewiki_web.Accounts.OAuthFlow.Matching.{
  IsBegun, IsAnswer, get_oauth_provider_config_lem, exchange-IsBegun,
}
use hivewiki_web.Accounts.OAuthFlow.Views.{
  PendingConfirmation, FlowResponse, linked, logged_in, Site, World,
}
use hivewiki_web.Accounts.OAuthFlow.Callback.{
  link_error, sign_up_error, act_on, exchange, oauth_callback_view,
}

-- The user that a response links, and the one that it logs in.
abbrev pub linked_user : FlowResponse → Option (HiveUser × Text)
linked_user (linked u next_url) = some (u, next_url)
linked_user _ = none

abbrev pub logged_user : FlowResponse → Option (HiveUser × Text)
logged_user (logged_in u next_url) = some (u, next_url)
logged_user _ = none

pub link_error-linked_user : (e : LinkError) → linked_user (link_error e) ≡ none
link_error-linked_user does_not_exist = refl
link_error-linked_user inactive_account = refl
link_error-linked_user other_email = refl
link_error-linked_user linked_elsewhere = refl
link_error-linked_user provider_linked = refl

pub link_error-logged_user : (e : LinkError) → logged_user (link_error e) ≡ none
link_error-logged_user does_not_exist = refl
link_error-logged_user inactive_account = refl
link_error-logged_user other_email = refl
link_error-logged_user linked_elsewhere = refl
link_error-logged_user provider_linked = refl

pub sign_up_error-linked_user : (e : SignUpError) → linked_user (sign_up_error e) ≡ none
sign_up_error-linked_user SignUpError.inactive_account = refl
sign_up_error-linked_user SignUpError.same_email = refl
sign_up_error-linked_user SignUpError.integrity_error = refl
sign_up_error-linked_user SignUpError.out_of_rounds = refl

pub sign_up_error-logged_user : (e : SignUpError) → logged_user (sign_up_error e) ≡ none
sign_up_error-logged_user SignUpError.inactive_account = refl
sign_up_error-logged_user SignUpError.same_email = refl
sign_up_error-logged_user SignUpError.integrity_error = refl
sign_up_error-logged_user SignUpError.out_of_rounds = refl

module _ (site : Site) (signing : Signing PendingConfirmation) (index : Cache ℕ (List Text) ◌==◌)
    (session_cookie_age : ℕ) where
  -- The state is taken out of the session.
  abbrev pub popped : World signing index → World signing index
  popped (i, s, db) = (i, record s { oauth_state = none }, db)

  -- An answer whose code was exchanged: the state of the session is used up, and the rest acts on the
  -- profile.
  abbrev pub IsExchanged :
      ℕ
      → Text
      → ℕ
      → ℕ
      → Text
      → Text
      → Text
      → World signing index
      → FlowResponse × World signing index
      → Type 0
  IsExchanged now new_key user_id id provider code state (i, s, db) r =
      (p : OAuthProvider) × (profile : Profile) × (begun : OAuthState) × (value_of p ≡ provider)
      × IsAnswer site.lower site.settings site.callback_url site.client provider code p profile
      × IsBegun provider state s.oauth_state begun
      × (act_on site signing index session_cookie_age now new_key user_id id p profile begun
            (popped (i, s, db))
          ≡ r)

  pub oauth_callback_view-cases :
      (now : ℕ) (new_key : Text) (user_id id : ℕ) (provider code state : Text)
      (w : World signing index)
      → let r =
          oauth_callback_view site signing index session_cookie_age now new_key user_id id provider
            code state w in
        ((linked_user r.0 ≡ none) × (logged_user r.0 ≡ none) × (r.1 ≡ w))
        ⊎ IsExchanged now new_key user_id id provider code state w r
  unfolding oauth_callback_view
  oauth_callback_view-cases now new_key user_id id provider code state (i, s, db) =
      elim (Bool-cases (is_empty code || is_empty state)) [
        | inl e ↦ inl (rw (oauth_callback_view, e) (refl, refl, refl))
        | inr e ↦
            elim (Result-cases
              (exchange site signing index session_cookie_age provider code state s)) [
                | inl (x, raised) ↦ inl (rw (oauth_callback_view, e, raised) (refl, refl, refl))
                | inr ((p, profile, begun, s'), done) ↦
                    let (c, found, asked) =
                      ok_bind (get_oauth_provider_config site.settings provider) _ _ done in
                    let ((x, y, z), got, last) =
                      ok_bind
                        (exchange_oauth_code_for_profile site.lower site.settings site.callback_url
                          site.client provider code state s)
                        _ _ asked in
                    let (name, set) =
                      get_oauth_provider_config_lem site.settings provider c found in
                    let ((kept, of_provider, of_state), popped, c', found', answered) =
                      exchange-IsBegun site.lower site.settings site.callback_url site.client
                        provider code state s z x y got in
                    let same_p : c.provider ≡ p = cc (last) in
                    let same_begun : y ≡ begun = cc (last) in
                    let same_profile : x ≡ profile = cc (last) in
                    let same_config : c' ≡ c = cc (sym found' ∙ found) in
                    let same_s : z ≡ s' = cc (last) in
                    inr (
                      rw (oauth_callback_view, e, done)
                        (
                          p,
                          profile,
                          begun,
                          ap value_of (sym same_p) ∙ name,
                          (
                            c',
                            found',
                            ap (λ (d : OAuthProviderConfig). d.provider) same_config ∙ same_p,
                            answered ∙ ap (λ (y : Profile). ok y) same_profile,
                          ),
                          subst (λ (b : OAuthState). IsBegun provider state s.oauth_state b)
                              same_begun (kept, of_provider, of_state),
                          ap
                              (λ (t : FlowSession signing.Token).
                                act_on site signing index session_cookie_age now new_key user_id id
                                  p profile begun (i, t, db))
                              (sym popped ∙ same_s),
                        ))
              ]
      ]
