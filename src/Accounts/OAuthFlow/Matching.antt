-- ===== src/Accounts/OAuthFlow/Matching.antt =====
-- What a code that was exchanged for a profile has shown.
use hivewiki_web.Base.{
  ◌≡◌, refl, sym, ap, ◌∙◌, Bool, true, false, not, ◌||◌, Option, none, some, first_of_rows,
  first_of_rows-holds, ok, ok_bind, ok_raise_if,
}
use hivewiki_web.Base.Text.{Text, text_eq, eq_of_text_eq}
use hivewiki_web.Accounts.Models.{OAuthProvider}
use hivewiki_web.Accounts.OAuth.{Profile}
use hivewiki_web.Accounts.OAuthFlow.{
  OAuthSettings, OAuthProviderConfig, OAuthState, FlowSession, value_of, configured,
  is_unconfigured, oauth_provider_configs, get_oauth_provider_config,
}
use hivewiki_web.Accounts.OAuthFlow.Exchange.{
  Client, profile_of, token_form, exchange_with, exchange_oauth_code_for_profile,
}

configured_lem :
    (o : Option OAuthProviderConfig) (c : OAuthProviderConfig)
    → configured o ≡ ok c
    → (o ≡ some c) × (is_unconfigured c ≡ false)
configured_lem none c h = cc (h)
configured_lem (some d) c h =
    let (set, same) = ok_raise_if (is_unconfigured d) _ (ok d) c h in
    let eq : d ≡ c = cc (same) in
    (ap some eq, ap (λ (e : OAuthProviderConfig). is_unconfigured e) (sym eq) ∙ set)

pub get_oauth_provider_config_lem :
    (settings : OAuthSettings) (provider : Text) (c : OAuthProviderConfig)
    → get_oauth_provider_config settings provider ≡ ok c
    → (value_of c.provider ≡ provider) × (is_unconfigured c ≡ false)
unfolding get_oauth_provider_config
get_oauth_provider_config_lem settings provider c h =
    let rows = oauth_provider_configs settings in
    let (found, set) =
      configured_lem (first_of_rows (λ d. text_eq (value_of d.provider) provider) rows) c h in
    (
      eq_of_text_eq (value_of c.provider) provider
          (first_of_rows-holds (λ d. text_eq (value_of d.provider) provider) rows c found),
      set,
    )

neither : (a b : Bool) → not a || not b ≡ false → (a ≡ true) × (b ≡ true)
neither true true h = (refl, refl)
neither true false h = cc (h)
neither false b h = cc (h)

-- The state that was begun in the session has the provider and the state of the answer.
abbrev pub IsBegun : Text → Text → Option OAuthState → OAuthState → Type 0
IsBegun provider state kept begun =
    (kept ≡ some begun) × (begun.provider ≡ provider) × (begun.state ≡ state)

module _ (lower : Text → Text) (settings : OAuthSettings) (callback_url : Text → Text)
    (client : Client) where
  -- The profile is what the provider's server answers the code with, at the provider that is configured
  -- under this name.
  abbrev pub IsAnswer : Text → Text → OAuthProvider → Profile → Type 0
  IsAnswer provider code p profile =
      (c : OAuthProviderConfig) × (get_oauth_provider_config settings provider ≡ ok c)
      × (c.provider ≡ p)
      × (profile_of lower client c
            (client.post_form c.token_url (token_form lower settings callback_url c provider code))
          ≡ ok profile)

  exchange_with-IsBegun :
      (provider code state : Text) (kept : Option OAuthState) (profile : Profile)
      (begun : OAuthState)
      → exchange_with lower settings callback_url client provider code state kept
        ≡ ok (profile, begun)
      → IsBegun provider state kept begun
        × (c : OAuthProviderConfig) × (get_oauth_provider_config settings provider ≡ ok c)
        × (profile_of lower client c (
              client.post_form c.token_url (token_form lower settings callback_url c provider code))
            ≡ ok profile)
  unfolding exchange_with
  exchange_with-IsBegun provider code state none profile begun h = cc (h)
  exchange_with-IsBegun provider code state (some b) profile begun h =
      let (match, rest) =
        ok_raise_if (not (text_eq b.provider provider) || not (text_eq b.state state)) _ _ _ h in
      let (c, found, asked) = ok_bind (get_oauth_provider_config settings provider) _ _ rest in
      let (p, got, last) =
        ok_bind
          (profile_of lower client c
            (client.post_form c.token_url (token_form lower settings callback_url c provider code)))
          _ _ asked in
      let same : b ≡ begun = cc (last) in
      let same_profile : p ≡ profile = cc (last) in
      let (one, two) = neither (text_eq b.provider provider) (text_eq b.state state) match in
      (
        (
          ap some same,
          ap (λ (x : OAuthState). x.provider) (sym same) ∙ eq_of_text_eq b.provider provider one,
          ap (λ (x : OAuthState). x.state) (sym same) ∙ eq_of_text_eq b.state state two,
        ),
        c,
        found,
        got ∙ ap (λ (x : Profile). ok x) same_profile,
      )

  pub exchange-IsBegun :
      {Token : Type 0} (provider code state : Text) (s s' : FlowSession Token) (profile : Profile)
      (begun : OAuthState)
      → exchange_oauth_code_for_profile lower settings callback_url client provider code state s
        ≡ ok (profile, begun, s')
      → IsBegun provider state s.oauth_state begun
        × (s' ≡ record s { oauth_state = none })
        × (c : OAuthProviderConfig) × (get_oauth_provider_config settings provider ≡ ok c)
        × (profile_of lower client c (
              client.post_form c.token_url (token_form lower settings callback_url c provider code))
            ≡ ok profile)
  unfolding exchange_oauth_code_for_profile
  exchange-IsBegun provider code state s s' profile begun h =
      let ((p, b), got, last) =
        ok_bind (exchange_with lower settings callback_url client provider code state s.oauth_state)
          _ _ h in
      let same_begun : b ≡ begun = cc (last) in
      let same_session : record s { oauth_state = none } ≡ s' = cc (last) in
      let same_profile : p ≡ profile = cc (last) in
      let ((kept, of_provider, of_state), c, found, answered) =
        exchange_with-IsBegun provider code state s.oauth_state profile begun (
          got
          ∙ ap (λ (x : Profile). ok (x, b)) same_profile
          ∙ ap (λ (x : OAuthState). ok (profile, x)) same_begun) in
      ((kept, of_provider, of_state), sym same_session, c, found, answered)
