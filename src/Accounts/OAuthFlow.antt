-- ===== src/Accounts/OAuthFlow.antt =====
-- apps/accounts/services.py: the providers of OAuth that are configured, and the start of a login or a
-- link. `reverse`, `urlencode` and `callback_url`, which is `_oauth_callback_url`, build addresses.
pub mod Exchange
pub mod Views
pub mod Callback
pub mod Confirm
pub mod Matching
pub mod Outcomes
pub mod Linked
pub mod Logins
pub mod Confirmed
pub mod Steps
pub mod Sound
pub mod Live
pub mod Confirming
mod Tests
use hivewiki_web.Base.{
  ℕ, ◌==◌, Bool, not, ◌&&◌, ◌||◌, Option, none, some, List, [], ◌∷◌, ◌++◌, if◌then◌else◌,
  first_of_rows, any_of, Result, ok, err, raise_if, ◌>>=◌, ◌>>◌,
}
use hivewiki_web.Base.Text.{Text, codes, text_eq, is_empty}
use hivewiki_web.Accounts.Models.{
  HiveUser, OAuthAccount, OAuthProvider, google, github, same_provider,
}
use hivewiki_web.Accounts.OAuth.{LinkError}
use hivewiki_web.Accounts.OAuth.SignUp.{SignUpError}
use hivewiki_web.Accounts.Login.{Session}

-- The settings with the names GOOGLE_OAUTH_CLIENT_ID and so on.
pub record OAuthSettings : Type 0 where
  pub google_client_id : Text
  pub google_client_secret : Text
  pub github_client_id : Text
  pub github_client_secret : Text

pub record OAuthProviderConfig : Type 0 where
  pub provider : OAuthProvider
  pub label : Text
  pub client_id : Text
  pub client_secret : Text
  pub authorize_url : Text
  pub token_url : Text
  pub scope : Text

-- The messages of `OAuthError`, and the errors of the two services that raise it.
pub data OAuthError : Type 0 where
  unsupported state_mismatch no_access_token unverified_email no_user_info : OAuthError
  not_configured token_exchange : Text → OAuthError
  expired bad_signature logged_out link_user_changed : OAuthError
  link_failed : LinkError → OAuthError
  sign_up_failed : SignUpError → OAuthError

-- OAUTH_ACTION_LOGIN and OAUTH_ACTION_LINK.
pub data OAuthAction : Type 0 where
  login link : OAuthAction

-- The dict under OAUTH_STATE_SESSION_KEY; a `link_user_id` that is empty is `none`.
pub record OAuthState : Type 0 where
  pub provider : Text
  pub state : Text
  pub next_url : Text
  pub action : OAuthAction
  pub link_user_id : Option ℕ

-- The session with what the flow keeps in it. `pending` is PENDING_OAUTH_CONFIRM_SESSION_KEY.
pub record FlowSession (Token : Type 0) : Type 0 where
  pub base : Session
  pub oauth_state : Option OAuthState
  pub pending : Option Token

-- The value of a choice.
abbrev pub value_of : OAuthProvider → Text
value_of google = codes "google"
value_of github = codes "github"

abbrev pub google_config : OAuthSettings → OAuthProviderConfig
google_config settings = record {
  provider = google;
  label = codes "Google";
  client_id = settings.google_client_id;
  client_secret = settings.google_client_secret;
  authorize_url = codes "https://accounts.google.com/o/oauth2/v2/auth";
  token_url = codes "https://oauth2.googleapis.com/token";
  scope = codes "openid email profile";
}

abbrev pub github_config : OAuthSettings → OAuthProviderConfig
github_config settings = record {
  provider = github;
  label = codes "GitHub";
  client_id = settings.github_client_id;
  client_secret = settings.github_client_secret;
  authorize_url = codes "https://github.com/login/oauth/authorize";
  token_url = codes "https://github.com/login/oauth/access_token";
  scope = codes "read:user user:email";
}

abbrev pub oauth_provider_configs : OAuthSettings → List OAuthProviderConfig
oauth_provider_configs settings = google_config settings ∷ github_config settings ∷ []

abbrev pub is_unconfigured : OAuthProviderConfig → Bool
is_unconfigured c = is_empty c.client_id || is_empty c.client_secret

abbrev pub configured : Option OAuthProviderConfig → Result OAuthError OAuthProviderConfig
configured none = err unsupported
configured (some c) = do raise_if (is_unconfigured c) (not_configured c.label); ok c

unfoldable pub get_oauth_provider_config :
    OAuthSettings → Text → Result OAuthError OAuthProviderConfig
get_oauth_provider_config settings provider =
    configured (
      first_of_rows (λ c. text_eq (value_of c.provider) provider) (oauth_provider_configs settings))

-- One dict of `get_available_oauth_providers`.
pub record ProviderInfo : Type 0 where
  pub provider : OAuthProvider
  pub label : Text
  pub start_url : Text

module _ (reverse : Text → OAuthProvider → Text) (urlencode : List (Text × Text) → Text) where
  abbrev pub start_url_of : Text → Text → OAuthProvider → Text
  start_url_of next_url route_name provider =
      if is_empty next_url
      then reverse route_name provider
      else reverse route_name provider ++ b'?' ∷ urlencode ((codes "next", next_url) ∷ [])

  -- The loop over the configurations.
  unfoldable pub available_of : Text → Text → List OAuthProviderConfig → List ProviderInfo
  available_of next_url route_name [] = []
  available_of next_url route_name (c ∷ cs) =
      let rest = available_of next_url route_name cs in
      if is_unconfigured c
      then rest
      else record {
        provider = c.provider;
        label = c.label;
        start_url = start_url_of next_url route_name c.provider;
      }
        ∷ rest

  unfoldable pub get_available_oauth_providers : OAuthSettings → Text → Text → List ProviderInfo
  get_available_oauth_providers settings next_url route_name =
      available_of next_url route_name (oauth_provider_configs settings)

  -- The loop over the providers: `linked` is the set of those of the user's accounts.
  unfoldable pub unlinked_of : (OAuthProvider → Bool) → List ProviderInfo → List ProviderInfo
  unlinked_of linked [] = []
  unlinked_of linked (i ∷ infos) =
      let rest = unlinked_of linked infos in if linked i.provider then rest else i ∷ rest

  unfoldable pub get_unlinked_oauth_providers :
      OAuthSettings → ℕ → List OAuthAccount → List ProviderInfo
  get_unlinked_oauth_providers settings user_id accounts =
      unlinked_of (λ p. any_of (λ a. a.user_id == user_id && same_provider a.provider p) accounts)
        (get_available_oauth_providers settings [] (codes "oauth_link_start"))

-- `str(link_user.id) if link_user is not None else ""`
abbrev pub id_or_none : Option HiveUser → Option ℕ
id_or_none none = none
id_or_none (some u) = some u.id

module _ (settings : OAuthSettings) (callback_url : Text → Text)
    (urlencode : List (Text × Text) → Text) where
  abbrev pub params_of : OAuthProviderConfig → Text → Text → List (Text × Text)
  params_of c provider state =
      let params =
        (codes "client_id", c.client_id)
        ∷ (codes "redirect_uri", callback_url provider)
        ∷ (codes "response_type", codes "code")
        ∷ (codes "scope", c.scope)
        ∷ (codes "state", state)
        ∷ [] in
      if text_eq provider (value_of google)
      then params
        ++ (codes "access_type", codes "offline") ∷ (codes "prompt", codes "select_account") ∷ []
      else params

  -- `state` is the result of `secrets.token_urlsafe(32)`. Returns the address of the provider.
  unfoldable pub begin_oauth_flow :
      {Token : Type 0}
      → Text
      → Text
      → Text
      → OAuthAction
      → Option HiveUser
      → FlowSession Token
      → Result OAuthError (Text × FlowSession Token)
  begin_oauth_flow state provider next_url action link_user s = do
    c ← get_oauth_provider_config settings provider
    ok (
      c.authorize_url ++ b'?' ∷ urlencode (params_of c provider state),
      record s {
        oauth_state = some (record {
          provider = provider;
          state = state;
          next_url = next_url;
          action = action;
          link_user_id = id_or_none link_user;
        });
      },
    )
