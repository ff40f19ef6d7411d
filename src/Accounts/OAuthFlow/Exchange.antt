-- ===== src/Accounts/OAuthFlow/Exchange.antt =====
-- apps/accounts/services.py, exchange_oauth_code_for_profile with what it calls: the code that a provider
-- sent back is turned into the profile of the user there. What the servers answer, and the parsers of
-- JSON and of query strings, stand in `Client`.
use hivewiki_web.Base.{
  Bool, not, ◌&&◌, ◌||◌, Option, none, some, List, [], ◌∷◌, ◌++◌, if◌then◌else◌, first_of_rows,
  take, Result, ok, err, raise_if, ◌>>=◌, ◌>>◌,
}
use hivewiki_web.Base.Text.{Text, codes, text_eq, is_empty, strip}
use hivewiki_web.Core.CommunityContent.{or_text}
use hivewiki_web.Accounts.Models.{google, same_provider}
use hivewiki_web.Accounts.OAuth.{Profile, text_or_empty}
use hivewiki_web.Accounts.OAuth.SignUp.{before_at}
use hivewiki_web.Accounts.OAuthFlow.{
  OAuthSettings, OAuthProviderConfig, OAuthError, state_mismatch, no_access_token, unverified_email,
  no_user_info, token_exchange, OAuthState, FlowSession, get_oauth_provider_config,
}

-- The body of a refusal as `json.loads` reads it; a field of a dict is `str(payload.get(key) or "")`.
pub data Json : Type 0 where
  invalid no_dict : Json
  dict : (Text → Text) → Json

-- The answer to `_post_form`: its `access_token`, a refusal with its body, or a failure to answer.
pub data TokenResponse : Type 0 where
  token : Option Text → TokenResponse
  http_error : Text → TokenResponse
  unreachable : TokenResponse

-- The fields that are read of Google's user, of GitHub's, and of one of the emails there.
pub record GoogleUser : Type 0 where
  pub sub : Text
  pub email : Option Text
  pub email_verified : Bool
  pub picture : Option Text
  pub given_name : Option Text
  pub name : Option Text

pub record GithubUser : Type 0 where
  pub id : Text
  pub email : Option Text
  pub avatar_url : Option Text
  pub login_name : Option Text

pub record EmailInfo : Type 0 where
  pub email : Option Text
  pub primary : Bool
  pub verified : Bool

-- The network and the parsers. `none` is an answer that did not come or could not be read.
pub record Client : Type 0 where
  pub loads : Text → Json
  -- `urllib.parse.parse_qs`, as pairs of a key and its first value.
  pub parse_qs : Text → List (Text × Text)
  pub post_form : Text → List (Text × Text) → TokenResponse
  -- `_get_json` at the address of each, with an access token.
  pub google_user : Text → Option GoogleUser
  pub github_user : Text → Option GithubUser
  pub github_emails : Text → Option (List EmailInfo)

-- `(parsed.get(key) or [""])[0]`
abbrev pub first_value : Text → List (Text × Text) → Text
first_value key [] = []
first_value key ((k, v) ∷ pairs) = if text_eq k key then v else first_value key pairs

-- `": ".join(part for part in [error, description] if part)[:200]`
abbrev pub joined : Text → Text → Text
joined error description = take 200 (
    if is_empty error
    then description
    else if is_empty description
    then error
    else error ++ codes ": " ++ description)

-- A body that is not JSON.
abbrev pub parsed_error : Text → List (Text × Text) → Text
parsed_error body [] = take 200 body
parsed_error body (pair ∷ pairs) =
    let parsed = pair ∷ pairs in
    joined (strip (first_value (codes "error") parsed)) (
      or_text (strip (first_value (codes "error_description") parsed))
        (strip (first_value (codes "error_summary") parsed)))

abbrev pub json_error : Client → Text → Json → Text
json_error client body invalid = parsed_error body (client.parse_qs body)
json_error client body no_dict = take 200 body
json_error client body (dict field) = joined (strip (field (codes "error"))) (
    strip (
      or_text (field (codes "error_description"))
        (or_text (field (codes "error_summary")) (field (codes "message")))))

unfoldable pub parse_oauth_error_response : Client → Text → Text
parse_oauth_error_response client raw_body =
    let body = strip raw_body in
    if is_empty body then [] else json_error client body (client.loads body)

abbrev pub email_of : Option EmailInfo → Option Text → Option Text
email_of none rest = rest
email_of (some i) rest = i.email

-- The two loops over the emails: the primary one that is verified, else the first verified one.
unfoldable pub primary_email : List EmailInfo → Option Text
primary_email emails =
    email_of (first_of_rows (λ i. i.primary && i.verified) emails)
      (email_of (first_of_rows (λ i. i.verified) emails) none)

module _ (lower : Text → Text) where
  unfoldable pub google_profile : Option GoogleUser → Result OAuthError Profile
  google_profile none = err no_user_info
  google_profile (some user) =
      let email = text_or_empty user.email in
      do
        raise_if (is_empty email || not user.email_verified) unverified_email
        ok (record {
          provider_user_id = user.sub;
          email = lower email;
          provider_email = some (lower email);
          profile_image = some (strip (text_or_empty user.picture));
          username_hint = some (
              or_text (text_or_empty user.given_name)
                (or_text (text_or_empty user.name) (before_at email)));
        })

  -- `profile.get("email") or _github_primary_email(access_token)`, where the emails are asked for only
  -- if the user has none.
  abbrev pub github_email : Option (List EmailInfo) → Option Text → Result OAuthError Text
  github_email emails (some (c ∷ s)) = ok (c ∷ s)
  github_email none _ = err no_user_info
  github_email (some emails) _ = ok (text_or_empty (primary_email emails))

  unfoldable pub github_profile :
      Option (List EmailInfo) → Option GithubUser → Result OAuthError Profile
  github_profile emails none = err no_user_info
  github_profile emails (some user) = do
    found ← github_email emails user.email
    raise_if (is_empty (lower found)) unverified_email
    ok (record {
      provider_user_id = user.id;
      email = lower found;
      provider_email = some (lower found);
      profile_image = some (strip (text_or_empty user.avatar_url));
      username_hint = some (or_text (text_or_empty user.login_name) (before_at (lower found)));
    })

  abbrev pub profile_with : Client → OAuthProviderConfig → Text → Result OAuthError Profile
  profile_with client c access_token =
      if same_provider c.provider google
      then google_profile (client.google_user access_token)
      else github_profile (client.github_emails access_token) (client.github_user access_token)

  -- What follows `_post_form`.
  unfoldable pub profile_of :
      Client → OAuthProviderConfig → TokenResponse → Result OAuthError Profile
  profile_of client c unreachable = err (token_exchange [])
  profile_of client c (http_error body) =
      err (token_exchange (parse_oauth_error_response client body))
  profile_of client c (token none) = err no_access_token
  profile_of client c (token (some t)) =
      if is_empty t then err no_access_token else profile_with client c t

  module _ (settings : OAuthSettings) (callback_url : Text → Text) where
    abbrev pub token_form : OAuthProviderConfig → Text → Text → List (Text × Text)
    token_form c provider code =
        (codes "client_id", c.client_id)
        ∷ (codes "client_secret", c.client_secret)
        ∷ (codes "code", code)
        ∷ (codes "redirect_uri", callback_url provider)
        ∷ (codes "grant_type", codes "authorization_code")
        ∷ []

    unfoldable pub exchange_with :
        Client → Text → Text → Text → Option OAuthState → Result OAuthError (Profile × OAuthState)
    exchange_with client provider code state none = err state_mismatch
    exchange_with client provider code state (some begun) = do
      raise_if (not (text_eq begun.provider provider) || not (text_eq begun.state state))
          state_mismatch
      c ← get_oauth_provider_config settings provider
      profile ← profile_of client c (client.post_form c.token_url (token_form c provider code))
      ok (profile, begun)

    -- The state is taken out of the session only at the end: what raises leaves it there.
    unfoldable pub exchange_oauth_code_for_profile :
        {Token : Type 0}
        → Client
        → Text
        → Text
        → Text
        → FlowSession Token
        → Result OAuthError (Profile × OAuthState × FlowSession Token)
    exchange_oauth_code_for_profile client provider code state s = do
      (profile, begun) ← exchange_with client provider code state s.oauth_state
      ok (profile, begun, record s { oauth_state = none })
