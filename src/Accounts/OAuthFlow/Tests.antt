-- ===== src/Accounts/OAuthFlow/Tests.antt =====
-- Logins and links by Google at small tables.
use Prim.{tt}
use hivewiki_web.Base.{ℕ, ◌≡◌, refl, true, Option, none, some, List, [], ◌∷◌, ◌==◌, ok, arith}
use hivewiki_web.Base.Text.{Text, codes, text_eq, strip}
use hivewiki_web.Django.Cache.{Cache, table_cache}
use hivewiki_web.Django.Signing.{Signing, plain_signing}
use hivewiki_web.Accounts.Models.{HiveUser, OAuthAccount, OAuthProvider, google, user, active}
use hivewiki_web.Accounts.Directory.{Directory}
use hivewiki_web.Accounts.Login.{get_current_user}
use hivewiki_web.Accounts.OAuth.{
  Profile, link_oauth_account_to_user, link_locked_user, link_found,
  sync_profile_image_from_oauth_profile,
}
use hivewiki_web.Accounts.OAuth.Usernames.{iexact}
use hivewiki_web.Accounts.OAuth.SignUp.{
  known_account, by_account, get_or_create_user_from_oauth_profile,
}
use hivewiki_web.Accounts.OAuthFlow.{
  OAuthSettings, OAuthAction, value_of, google_config, login, link, OAuthState, FlowSession,
  get_oauth_provider_config,
}
use hivewiki_web.Accounts.OAuthFlow.Exchange.{
  exchange_with, exchange_oauth_code_for_profile, Client, invalid, token, google_profile,
  profile_of,
}
use hivewiki_web.Accounts.OAuthFlow.Views.{
  PendingConfirmation, FlowResponse, logged_in_with, oauth_link_start_view, confirm_page, logged_in,
  Site, World, oauth_start_view,
}
use hivewiki_web.Accounts.OAuthFlow.Callback.{link_callback, login_callback, oauth_callback_view}
use hivewiki_web.Accounts.OAuthFlow.Confirm.{
  max_age, confirm_for, confirm_pending, oauth_confirm_existing_account_view,
}
use hivewiki_web.Accounts.OAuthFlow.Matching.{IsBegun, IsAnswer}
use hivewiki_web.Accounts.OAuthFlow.Outcomes.{popped}
use hivewiki_web.Accounts.OAuthFlow.Linked.{IsLinkFor, oauth_callback_view-linked}
use hivewiki_web.Accounts.OAuthFlow.Logins.{IsLoginFor, oauth_callback_view-logged_in}
use hivewiki_web.Accounts.OAuthFlow.Confirmed.{
  IsConfirmedFor, oauth_confirm_existing_account_view-logged_in,
}
use hivewiki_web.Accounts.OAuthFlow.Steps.{link_start, callback, here, next, IsSound}
use hivewiki_web.Accounts.OAuthFlow.Sound.{Reach-IsSound}
use hivewiki_web.Accounts.OAuthFlow.Live.{Answers, oauth_callback_view-start}
use hivewiki_web.Accounts.OAuthFlow.Confirming.{oauth_confirm_existing_account_view-callback}

abbrev index : Cache ℕ (List Text) ◌==◌
index = table_cache ◌==◌

abbrev signing : Signing PendingConfirmation
signing = plain_signing

abbrev client : Client
client = record {
  loads = λ body. invalid;
  parse_qs = λ body. [];
  post_form = λ url form. token (some (codes "t"));
  google_user = λ t. some (record {
    sub = codes "g";
    email = some (codes "k@a");
    email_verified = true;
    picture = none;
    given_name = none;
    name = none;
  });
  github_user = λ t. none;
  github_emails = λ t. none;
}

abbrev settings : OAuthSettings
settings = record {
  google_client_id = codes "c";
  google_client_secret = codes "s";
  github_client_id = [];
  github_client_secret = [];
}

abbrev site : Site
site = record {
  settings = settings;
  callback_url = λ provider. provider;
  urlencode = λ params. [];
  client = client;
  mypage = codes "/mypage";
  fold_char = λ c. c;
  is_alnum = λ c. true;
  lower = λ t. t;
}

abbrev member : HiveUser
member = record {
  id = 7;
  username = codes "k";
  email = codes "k@a";
  role = user;
  password_hash = none;
  status = active;
  profile_image = none;
  created_at = 0;
  updated_at = 0;
}

abbrev account : OAuthAccount
account = record {
  id = 1;
  user_id = 7;
  provider = google;
  provider_user_id = codes "g";
  provider_email = none;
  linked_at = 0;
  last_login_at = none;
}

abbrev profile : Profile
profile = record {
  provider_user_id = codes "g";
  email = codes "k@a";
  provider_email = some (codes "k@a");
  profile_image = some [];
  username_hint = some (codes "k");
}

abbrev session_of : Option ℕ → FlowSession signing.Token
session_of id = record {
  base = record { session_key = some (codes "o"); user_id = id; timezone = none };
  oauth_state = none;
  pending = none;
}

abbrev no_sessions : index.Store
no_sessions k = none

abbrev known : Directory
known = record { users = member ∷ []; oauth_accounts = account ∷ [] }

abbrev unknown : Directory
unknown = record { users = member ∷ []; oauth_accounts = [] }

answers :
    Answers site signing index 60 (codes "google") (google_config settings) (codes "x") profile
unfolding get_oauth_provider_config profile_of google_profile text_eq strip
answers = (refl, refl)

oauth_callback_view-start_example :
    let begun =
      oauth_start_view site signing index 60
        (codes "s")
        (codes "google")
        (codes "/n")
        (no_sessions, session_of none, unknown) in
    let r =
      oauth_callback_view site signing index 60 5
        (codes "n")
        8
        2
        (codes "google")
        (codes "x")
        (codes "s")
        (no_sessions, begun.1.1, known) in
    (r.0 ≡ logged_in member (codes "/n")) × (r.1.1.base.user_id ≡ some 7)
unfolding text_eq
oauth_callback_view-start_example =
    oauth_callback_view-start site signing index 60 5 (codes "n") 8 2 (codes "s") (codes "google")
      (codes "/n") (codes "x") (google_config settings) profile
      (no_sessions, session_of none, unknown) no_sessions known account member refl refl answers
      refl refl refl

oauth_confirm_existing_account_view-callback_example :
    let begun =
      oauth_start_view site signing index 60
        (codes "s")
        (codes "google")
        (codes "/n")
        (no_sessions, session_of none, unknown) in
    let asked =
      oauth_callback_view site signing index 60 5
        (codes "m")
        8
        2
        (codes "google")
        (codes "x")
        (codes "s")
        begun.1 in
    let r =
      oauth_confirm_existing_account_view site signing index 60 600_000_000
        (codes "n")
        2
        (codes "confirm")
        asked.1 in
    (asked.0 ≡ confirm_page member (codes "/n"))
    × (r.0 ≡ logged_in member (codes "/n"))
    × (r.1.1.base.user_id ≡ some 7)
unfolding text_eq strip iexact
oauth_confirm_existing_account_view-callback_example =
    oauth_confirm_existing_account_view-callback site signing index 60 5 600_000_000 (codes "m")
      (codes "n") 8 2 (codes "s") (codes "google") (codes "/n") (codes "x") (google_config settings)
      profile (no_sessions, session_of none, unknown) member refl refl answers refl refl refl refl
      refl refl (omega arith)

abbrev begun_by : OAuthAction → Option ℕ → Option ℕ → FlowSession signing.Token
begun_by action link_user_id user_id = record (session_of user_id) {
  oauth_state = some (record {
    provider = codes "google";
    state = codes "s";
    next_url = codes "/n";
    action = action;
    link_user_id = link_user_id;
  });
}

abbrev answered : World signing index → FlowResponse × World signing index
answered w =
    oauth_callback_view site signing index 60 5 (codes "n") 8 2 (codes "google") (codes "x")
      (codes "s") w

abbrev linking : World signing index
linking = (no_sessions, begun_by link (some 7) (some 7), unknown)

oauth_callback_view-linked_example :
    (p : OAuthProvider) × (profile : Profile) × (begun : OAuthState) × (value_of p ≡ codes "google")
    × IsAnswer site.lower settings site.callback_url client (codes "google") (codes "x") p profile
    × IsBegun (codes "google") (codes "s") linking.1.oauth_state begun
    × (begun.action ≡ link)
    × IsLinkFor site signing index 60 p profile begun
        (popped site signing index 60 linking)
        member
        (answered linking).1
unfolding oauth_callback_view exchange_oauth_code_for_profile exchange_with
    get_oauth_provider_config profile_of google_profile get_current_user link_callback
    link_oauth_account_to_user link_locked_user link_found sync_profile_image_from_oauth_profile
    text_eq strip
oauth_callback_view-linked_example =
    oauth_callback_view-linked site signing index 60 5 (codes "n") 8 2 (codes "google") (codes "x")
      (codes "s") linking (answered linking).1 member (codes "/n") refl

abbrev entering : World signing index
entering = (no_sessions, begun_by login none none, known)

oauth_callback_view-logged_in_example :
    (p : OAuthProvider) × (profile : Profile) × (begun : OAuthState) × (value_of p ≡ codes "google")
    × IsAnswer site.lower settings site.callback_url client (codes "google") (codes "x") p profile
    × IsBegun (codes "google") (codes "s") entering.1.oauth_state begun
    × (begun.action ≡ login)
    × (codes "/n" ≡ begun.next_url)
    × IsLoginFor site signing index 60 p profile entering member (answered entering).1
unfolding oauth_callback_view exchange_oauth_code_for_profile exchange_with
    get_oauth_provider_config profile_of google_profile login_callback
    get_or_create_user_from_oauth_profile by_account known_account logged_in_with text_eq strip
oauth_callback_view-logged_in_example =
    oauth_callback_view-logged_in site signing index 60 (λ c d. refl) 5 (codes "n") 8 2
      (codes "google") (codes "x") (codes "s") entering (answered entering).1 member (codes "/n")
      refl refl

abbrev confirmation : PendingConfirmation
confirmation = record { provider = google; profile = profile; user_id = 7; next_url = codes "/n" }

abbrev waiting : World signing index
waiting = (no_sessions, record (session_of none) { pending = some (confirmation, 0) }, unknown)

abbrev after_confirm : World signing index
after_confirm =
    (oauth_confirm_existing_account_view site signing index 60 5 (codes "n") 2 (codes "confirm")
      waiting).1

oauth_confirm_existing_account_view-logged_in_example :
    (kept : signing.Token) × (p : PendingConfirmation) × (waiting.1.pending ≡ some kept)
    × (signing.loads max_age 5 kept ≡ ok p)
    × (codes "confirm" ≡ codes "confirm")
    × (codes "/n" ≡ p.next_url)
    × IsConfirmedFor site signing index 60 p waiting member after_confirm
unfolding oauth_confirm_existing_account_view confirm_pending confirm_for link_oauth_account_to_user
    link_locked_user link_found sync_profile_image_from_oauth_profile logged_in_with text_eq strip
oauth_confirm_existing_account_view-logged_in_example =
    oauth_confirm_existing_account_view-logged_in site signing index 60 5 (codes "n") 2
      (codes "confirm") waiting after_confirm member (codes "/n") refl

abbrev fresh_world : World signing index
fresh_world = (no_sessions, session_of (some 7), unknown)

abbrev begun_link : World signing index
begun_link =
    (oauth_link_start_view site signing index 60 (codes "s") (codes "google") fresh_world).1

Reach-IsSound_example : IsSound site signing index 60 (answered begun_link).1
Reach-IsSound_example =
    Reach-IsSound site signing index 60 (tt, tt)
      (next (next here (link_start (codes "s") (codes "google")))
        (callback 5 (codes "n") 8 2 (codes "google") (codes "x") (codes "s")))
