-- ===== src/Forward/Examples.antt =====
-- A login that is carried to the protected origin `https://app`, and requests to it. In the place of
-- signed tokens stand their names.
use authere.Base.{◌≡◌, refl, true, false, none, some, [], ◌∷◌, ◌++◌, if◌then◌else◌, ltb}
use authere.Base.Text.{Text, codes, same, starts_with, eq_ignore_ascii_case}
use authere.Base.Rows.{find, delete_where, count_where}
use authere.Base.Errors.{ok}
use authere.Http.{
  Headers, white_len, trim_start_from, is_white, trim_end, trim, split_from, split, split_once_from,
  split_once, cookie_pair, cookie_values, extract_cookie,
}
use authere.Role.{get_for_user, join_roles}
use authere.Application.{Application, forward_auth}
use authere.Application.Policy.{
  literal_host_pattern, rank_lt, rank_eq, rank, settle, host_matches, matches, is_candidate,
  consider, choose, find_matching,
}
use authere.Application.Access.{any_contained, resolve, required_names, check_access_resolved}
use authere.Session.{Claims, user_session_version, verify_legacy, verify_user_session}
use authere.Session.Tokens.{access_claims, verify_access_token, accept_session}
use authere.State.{Db, get_user}
use authere.Oauth.{resolve_refresh, resolve_browser_session}
use authere.Oauth.Sample
use authere.Forward.Path
use authere.Forward.Path.{
  safe_local_path, has_double_slash, ends_with_slash, resolve_all, render, canonicalize,
  decode_rounds, normalize_policy_path,
}
use authere.Forward.Handoff
use authere.Forward.Handoff.{
  ForwardSession, Handoff, valid_state, insert_handoff, session_for, handoff_for, store_handoff,
  issue_handoff, is_misused, decode_handoff, take_handoff, redeem_handoff, verify_session,
}
use authere.Forward.Target.{
  Url, Urls, Target, until_separator, after_separator, authority_part, names_user, is_bad_url,
  single_header, parse, ensure_protected_origin, start_url, from_proxy, from_callback,
}
use authere.Forward.Verify.{
  Proxy, AuthHeaders, allowed, join_roles_text, build_auth_headers, credential, verify_access,
  verify_credential, find_policy, verify_auth,
}
use authere.Forward.Flow.{
  to_callback, Landing, continue_path, callback_url, hand_off, pass_session, keep_renewed,
  pass_resolved, read_redirect, forward_redirect, land, read_callback, forward_auth_callback,
}
use authere.Forward.Allowed.{IsAllowed, verify_auth-IsAllowed}
use authere.Forward.Asked.{IsAskedFor}
use authere.Forward.Landed.{
  IsLanded, IsHandedOff, forward_auth_callback-IsLanded, forward_redirect-IsHandedOff,
}

forward : Unit {0}
unfolding Sample.oauth eq_ignore_ascii_case starts_with find delete_where count_where white_len
    trim_start_from is_white trim_end trim split_from split split_once_from split_once cookie_pair
    cookie_values extract_cookie get_for_user join_roles literal_host_pattern rank_lt rank_eq rank
    settle host_matches matches is_candidate consider choose find_matching any_contained resolve
    required_names check_access_resolved user_session_version verify_legacy verify_user_session
    access_claims verify_access_token accept_session get_user resolve_refresh
    resolve_browser_session safe_local_path has_double_slash ends_with_slash Path.split_from
    Path.resolve resolve_all Path.join render canonicalize decode_rounds normalize_policy_path
    valid_state insert_handoff session_for handoff_for store_handoff issue_handoff is_misused
    decode_handoff take_handoff redeem_handoff verify_session until_separator after_separator
    authority_part names_user is_bad_url single_header parse ensure_protected_origin start_url
    from_proxy from_callback join_roles_text build_auth_headers credential verify_access
    verify_credential find_policy verify_auth continue_path callback_url hand_off pass_session
    keep_renewed pass_resolved read_redirect forward_redirect land read_callback
    forward_auth_callback same
forward = tt

abbrev state : Text
state = codes "0123456789abcdef0123456789abcdef0123456789abcdef0123456789abcdef"

abbrev url : Text → Url
url path = record {
  text = codes "https://app" ++ path;
  scheme = codes "https";
  host = some (codes "app");
  username = [];
  password = none;
  fragment = none;
  authority = codes "app";
  path = path;
  local = path;
  origin = codes "https://app";
}

abbrev urls : Urls
urls = record {
  parse_url = λ text.
      if same text (codes "https://app/x")
      then some (url (codes "/x"))
      else if same text (codes "https://app/")
      then some (url (codes "/"))
      else none;
  same_origin = λ a b. false;
  urldecode = some;
  urlencode = λ text. text;
}

abbrev session : ForwardSession
session = record {
  sub = 7;
  application_id = 3;
  iss = codes "authere-forward";
  aud = codes "https://app";
  iat = 1000;
  exp = 5000;
  session_version = some 0;
  typ = codes "forward-session";
}

abbrev handoff : Handoff
handoff = record {
  session = session;
  state_hash = state;
  redirect_path = codes "/x";
  jti = codes "j1";
  iss = codes "authere-forward";
  aud = codes "https://app";
  exp = 1100;
  typ = codes "forward-handoff";
}

abbrev handoffs : Handoff.Crates
handoffs = record {
  sign_handoff = λ handoff. some (codes "h1");
  sign_session = λ session. some (codes "f1");
  read_handoff = λ audience token. if same token (codes "h1") then some handoff else none;
  read_session = λ audience token. if same token (codes "f1") then some session else none;
  in_time = ltb;
  state_hash = λ text. text;
  parse_uuid = λ text. if same text (codes "7") then some 7 else none;
}

abbrev proxy : Proxy
proxy = record {
  origin = codes "https://id";
  urls = urls;
  regex = λ pattern. none;
  handoffs = handoffs;
  to_str = some;
  is_header_value = λ text. true;
  show_uuid = λ id. codes "7";
}

abbrev app : Application
app = record {
  id = 3;
  name = codes "App";
  slug = codes "app";
  app_type = forward_auth;
  host_pattern = some (codes "app");
  path_prefix = none;
  required_roles = [];
  enabled = true;
  oidc_client_id = none;
  oidc_redirect_uris = [];
  oidc_post_logout_redirect_uris = [];
  oidc_confidential = false;
  created_at = 0;
  updated_at = 0;
  oidc_client_secret_hash = none;
}

abbrev db : Db
db = record Sample.db { applications = app ∷ [] }

abbrev handed : Db
handed = record db {
  sessions = record Sample.store {
    handoffs = record { id = codes "j1"; user_id = 7; expires_at = 1110 } ∷ [];
  };
}

abbrev asked : Headers
asked name =
    if same name (codes "x-forwarded-host")
    then codes "app" ∷ []
    else if same name (codes "x-forwarded-uri")
    then codes "/x" ∷ []
    else if same name (codes "cookie")
    then codes "__Host-authere_forward=f1" ∷ []
    else []

abbrev called : Headers
called name =
    if same name (codes "host")
    then codes "app" ∷ []
    else if same name (codes "cookie")
    then (codes "__Host-authere_forward_state=" ++ state) ∷ []
    else []

abbrev told : AuthHeaders
told = record {
  x_auth_user = codes "7";
  x_auth_username = codes "ada";
  x_auth_roles = [];
  x_auth_email = codes "a@b.cd";
}

abbrev landing : Landing
landing = record { location = codes "/x"; session_token = codes "f1"; lifetime = 3940 }

forward_tests :
    (verify_auth proxy asked 1200 db ≡ allowed told)
    × ((forward_auth_callback proxy called (codes "h1") 1060 handed).0 ≡ ok landing)
    × ((forward_redirect proxy Sample.session_crates Sample.fresh
          (codes "j1")
          Sample.headers
          (codes "https://app/x")
          state
          1050
          db).result
        ≡ ok (to_callback (codes "https://app/.authere/callback?token=h1")))
unfolding forward
forward_tests = (refl, refl, refl)

verify_auth-IsAllowed_example : IsAllowed proxy asked 1200 db told
unfolding forward
verify_auth-IsAllowed_example = verify_auth-IsAllowed proxy asked 1200 db told refl

forward_auth_callback-IsLanded_example :
    IsLanded proxy called
      (codes "h1")
      1060
      handed
      (forward_auth_callback proxy called (codes "h1") 1060 handed).1
      landing
unfolding forward
forward_auth_callback-IsLanded_example =
    forward_auth_callback-IsLanded proxy called (codes "h1") 1060 handed landing refl

abbrev after_lookup : Db
after_lookup = record db {
  sessions =
      (resolve_browser_session Sample.session_crates some Sample.fresh Sample.headers 1050
        db.sessions).store;
}

forward_redirect-IsHandedOff_example :
    (target : Target) × (app : Application) × (claims : Claims) × IsAskedFor proxy
      (codes "https://app/x")
      state
      db
      target
      app
    × ((resolve_browser_session Sample.session_crates some Sample.fresh Sample.headers 1050
          db.sessions).result
        ≡ ok (some claims))
    × IsHandedOff proxy
        (codes "j1")
        1050
        state
        target
        app
        claims
        after_lookup
        (codes "https://app/.authere/callback?token=h1")
unfolding forward
forward_redirect-IsHandedOff_example =
    forward_redirect-IsHandedOff proxy Sample.session_crates Sample.fresh (codes "j1")
      Sample.headers (codes "https://app/x") state 1050 db
      (codes "https://app/.authere/callback?token=h1") refl
