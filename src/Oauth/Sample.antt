-- ===== src/Oauth/Sample.antt =====
-- An authorization, the exchange of its code, a look at the user's data and a logout: the client `c`
-- is public, its only redirect URI is `https://app/cb`, and user 7 has the session `a1`.
use authere.Base.{true, false, none, some, [], ◌∷◌, if◌then◌else◌}
use authere.Base.Text.{Text, codes, same, starts_with}
use authere.Base.Rows.{find, update_where, count_where}
use authere.Http.{
  Headers, white_len, words_from, split_whitespace, trim_start_from, is_white, trim_end, trim,
  split_from, split, split_once_from, split_once, cookie_pair, cookie_values, extract_cookie,
}
use authere.Role.{get_for_user, join_roles}
use authere.Application.{Application, oidc}
use authere.Application.Access.{
  any_contained, resolve, required_names, check_access_resolved, validate_redirect_uri,
}
use authere.Session
use authere.Session.{
  Claims, Store, user_session_version, verify_legacy, verify_user_session, upsert_revocation,
  revoke_user_access_tokens, revoke_all_user_tokens,
}
use authere.Session.Tokens.{Fresh, access_claims, verify_access_token, accept_session}
use authere.Oidc.Codes.{
  is_refused, verify_pkce_s256, consume_read, consume_update, consume, consumed_code, issue,
  new_row, expiry,
}
use authere.Oidc.Token.{
  TokenResponse, Signer, unique_from, parse_scope, join_scope, build_id_token_claims,
  encode_id_token, oidc_claims, generate_oidc_access_token, verify_oidc_access_token, minted_claims,
  mint_token_pair,
}
use authere.Oauth.{
  code, description, Crates, Db, get_user, get_by_oidc_client_id, given, append_from, append_query,
  error_params, if_unauthenticated, resolve_refresh, resolve_browser_session,
}
use authere.Oauth.Authorize.{
  AuthorizeQuery, Draw, check_client, prompt_none, is_s256_challenge, check_challenge,
  check_parameters, error_redirect, login_redirect, needs_login, grant_for, reply_issued,
  issue_code, authorize_user, reply_session, authorize_session, authorize,
}
use authere.Oauth.Exchange.{
  TokenForm, decode_pair, parse_credentials, parse_basic_auth, conflicts, read_credentials,
  is_authenticated, authenticate_client, issue_tokens, exchange_code, read_presented, token_of,
}
use authere.Oauth.UserInfo.{UserInfo, strip_bearer, bearer, info_for, info_of_claims, userinfo}
use authere.Oauth.Logout.{is_own_origin}

unfoldable pub oauth : Unit {0}
unfolding white_len words_from split_whitespace trim_start_from is_white trim_end trim split_from
    split split_once_from split_once cookie_pair cookie_values extract_cookie get_for_user
    join_roles any_contained resolve required_names check_access_resolved validate_redirect_uri
    user_session_version verify_legacy verify_user_session access_claims verify_access_token
    accept_session is_refused verify_pkce_s256 consume_read consume_update consume consumed_code
    issue new_row expiry unique_from parse_scope join_scope build_id_token_claims encode_id_token
    oidc_claims generate_oidc_access_token verify_oidc_access_token minted_claims mint_token_pair
    code description get_user get_by_oidc_client_id given append_from append_query error_params
    if_unauthenticated resolve_refresh resolve_browser_session check_client prompt_none
    is_s256_challenge check_challenge check_parameters error_redirect login_redirect needs_login
    grant_for reply_issued issue_code authorize_user reply_session authorize_session authorize
    decode_pair parse_credentials parse_basic_auth conflicts read_credentials is_authenticated
    authenticate_client issue_tokens exchange_code read_presented token_of starts_with find
    update_where count_where same strip_bearer bearer info_for info_of_claims userinfo is_own_origin
oauth = tt

abbrev pub session : Claims
unfolding access_claims
session = access_claims (codes "a1") 1000 (codes "7") [] 5000 (some 0) 1000

abbrev pub session_crates : Session.Crates
session_crates = record {
  encode = λ claims. some claims.jti;
  decode = λ now token. if same token (codes "a1") then some session else none;
  hash_token = λ token. token;
  parse_uuid = λ text. if same text (codes "7") then some 7 else none;
  show_uuid = λ id. codes "7";
  seal = λ pair. none;
  unseal = λ text. none;
}

abbrev pub signer : Signer
unfolding oidc_claims
signer = record {
  origin = codes "https://id";
  encode_id = λ claims. some (codes "i1");
  encode_access = λ claims. some claims.jti;
  decode_access = λ now token.
      if same token (codes "o1")
      then some (record {
        iss = codes "https://id";
        sub = codes "7";
        aud = codes "c";
        exp = 4700;
        iat = 1100;
        jti = codes "o1";
        scope = codes "openid email";
        typ = codes "oidc_access";
        session_version = some 0;
      })
      else none;
  show_uuid = λ id. codes "7";
}

abbrev pub crates : Crates
crates = record {
  sessions = session_crates;
  signer = signer;
  to_str = some;
  urlencode = λ text. text;
  urldecode = some;
  decode_base64 = some;
  is_base64url = λ text. true;
  hash_code = λ text. text;
  challenge_of = λ text. text;
  hash_secret = λ text. text;
  decode_hint = λ text. none;
  is_header_value = λ text. true;
  ascii_origin = some;
}

abbrev pub app : Application
app = record {
  id = 3;
  name = codes "App";
  slug = codes "app";
  app_type = oidc;
  host_pattern = none;
  path_prefix = none;
  required_roles = [];
  enabled = true;
  oidc_client_id = some (codes "c");
  oidc_redirect_uris = codes "https://app/cb" ∷ [];
  oidc_post_logout_redirect_uris = codes "https://app/out" ∷ [];
  oidc_confidential = false;
  created_at = 0;
  updated_at = 0;
  oidc_client_secret_hash = none;
}

abbrev pub store : Store
store = record {
  accounts = record { id = 7; active = true; token_version = 0 } ∷ [];
  tables = record { users = 7 ∷ []; roles = []; user_roles = [] };
  refresh_tokens = [];
  revocations = [];
  handoffs = [];
}

abbrev pub db : Db
db = record {
  sessions = store;
  applications = app ∷ [];
  codes = [];
  profiles = λ id. record {
    username = codes "ada";
    name = codes "Ada";
    email = some (codes "a@b.cd");
    created_at = 1;
    updated_at = 2;
  };
  authenticators = [];
  factors = record { totps = []; recovery_codes = [] };
}

abbrev pub headers : Headers
headers name = if same name (codes "cookie") then codes "__Host-authere_token=a1" ∷ [] else []

abbrev pub no_headers : Headers
no_headers name = []

abbrev pub challenge : Text
challenge = codes "0123456789012345678901234567890123456789abc"

abbrev pub query : AuthorizeQuery
query = record {
  response_type = some (codes "code");
  client_id = some (codes "c");
  redirect_uri = some (codes "https://app/cb");
  scope = some (codes "openid email");
  state = some (codes "s");
  nonce = none;
  code_challenge = some challenge;
  code_challenge_method = some (codes "S256");
  prompt = none;
  max_age = none;
}

abbrev pub fresh : Fresh
fresh = record { access_jti = codes "a2"; refresh_jti = codes "r2"; refresh_id = 2 }

abbrev pub draw : Draw
draw = record { fresh = fresh; plaintext = codes "k" }

abbrev pub authorized : Db
authorized = (authorize crates query headers none draw 1050 db).db

abbrev pub form : TokenForm
form = record {
  grant_type = some (codes "authorization_code");
  code = some (codes "k");
  redirect_uri = some (codes "https://app/cb");
  client_id = some (codes "c");
  client_secret = none;
  code_verifier = some challenge;
}

abbrev pub response : TokenResponse
response = record {
  access_token = codes "o1";
  id_token = codes "i1";
  token_type = codes "Bearer";
  expires_in = 3600;
  scope = codes "openid email";
}

abbrev pub bearer_headers : Headers
bearer_headers name = if same name (codes "authorization") then codes "Bearer o1" ∷ [] else []

abbrev pub info : UserInfo
info = record {
  sub = codes "7";
  name = none;
  preferred_username = none;
  updated_at = none;
  email = some (codes "a@b.cd");
  roles = none;
}
