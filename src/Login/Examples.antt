-- ===== src/Login/Examples.antt =====
-- A login of user 7 with a password, and a logout.
use authere.Base.{◌≡◌, refl, true, false, none, some, [], ◌∷◌, if◌then◌else◌}
use authere.Base.Text.{codes, same, starts_with}
use authere.Base.Rows.{find, update_where, count_where}
use authere.Base.Errors.{authentication_required, ok, err, is_ok}
use authere.Http.{
  Headers, white_len, trim_start_from, is_white, trim_end, trim, split_from, split, split_once_from,
  split_once, cookie_pair, cookie_values, extract_cookie,
}
use authere.Role.{get_for_user, join_roles}
use authere.RateLimit
use authere.RateLimit.{Config, Entries, entry_or_new, reset_expired, admit}
use authere.User.{get_by_username, validate_username}
use authere.User.Password
use authere.User.Password.{
  password, get_password_for, verify_password, try_password_login, validate_password,
}
use authere.Totp.Table
use authere.Totp.Login.{enforce_mfa}
use authere.Session.{
  Claims, TokenPair, Store, user_session_version, verify_legacy, verify_user_session,
  upsert_revocation, revoke_user_access_tokens, revoke_all_user_tokens,
}
use authere.Session.Tokens.{
  access_claims, refresh_claims, sign, generate_access_token_for_session, insert_refresh_token,
  refresh_row, generate_refresh_token_for_session, token_pair, generate_token_pair_for_session,
  generate_token_pair, verify_access_token, accept_session, read_refresh_token, take_refresh_token,
  consume_refresh_token,
}
use authere.State.{Db}
use authere.Oauth.Sample
use authere.Oauth.Sample.{fresh, headers}
use authere.Login.{
  LoginInput, Crates, has_control, is_local_redirect, check_input, authenticate, start_session,
  log_in, login, redirect_to, browser_login_response, answer_browser, browser_login,
  verify_and_revoke_refresh_token, logout, refresh_cookie, user_of_refresh, user_of_access,
  logout_user, browser_logout,
}
use authere.Login.Guarded.{IsLoggedIn, login-IsLoggedIn}
use authere.Login.Ended.{by_refresh, browser_logout_ends}

logins : Unit {0}
unfolding Sample.oauth starts_with find update_where count_where white_len trim_start_from is_white
    trim_end trim split_from split split_once_from split_once cookie_pair cookie_values
    extract_cookie get_for_user join_roles RateLimit.check entry_or_new reset_expired admit
    get_by_username validate_username Password.login get_password_for verify_password
    try_password_login validate_password Table.get enforce_mfa user_session_version verify_legacy
    verify_user_session upsert_revocation revoke_user_access_tokens revoke_all_user_tokens
    access_claims refresh_claims sign generate_access_token_for_session insert_refresh_token
    refresh_row generate_refresh_token_for_session token_pair generate_token_pair_for_session
    generate_token_pair verify_access_token accept_session read_refresh_token take_refresh_token
    consume_refresh_token has_control is_local_redirect check_input authenticate start_session
    log_in login redirect_to browser_login_response answer_browser browser_login
    verify_and_revoke_refresh_token logout refresh_cookie user_of_refresh user_of_access logout_user
    browser_logout same
logins = tt

abbrev crates : Crates
unfolding refresh_claims
crates = record {
  is_match = λ pattern text. true;
  argon = record { hash_password = λ salt cleartext. some cleartext; verify = same };
  totp = record {
    mac = λ secret counter. [];
    trim = λ text. text;
    chars = λ text. text;
    is_whitespace = λ c. false;
    to_uppercase = λ c. c ∷ [];
    sha256_hex = λ text. text;
    hex_decode = some;
    decrypt = λ nonce text. ok text;
  };
  sessions = record Sample.session_crates {
    decode = λ now token. some (refresh_claims (codes "r1") 1000 (codes "7") 5000 (some 0) 1000);
  };
  to_str = some;
  is_header_value = λ text. true;
  session_expiry_seconds = 4000;
}

abbrev db : Db
db = record Sample.db {
  authenticators = record { id = 1; scheme = password (codes "correct horse"); owner_id = 7 } ∷ [];
}

abbrev input : LoginInput
input = record { username = codes "ada"; password = codes "correct horse"; totp_code = none }

abbrev config : Config
config = record { max_requests = 5; window = 60 }

abbrev pair : TokenPair
pair = record {
  access_token = codes "a2";
  refresh_token = codes "r2";
  expires_in = 900;
  refresh_expires_in = 4000;
  token_type = codes "Bearer";
}

abbrev store : Store
store = record Sample.store {
  refresh_tokens =
      record {
        id = 1;
        user_id = 7;
        token_hash = codes "r1";
        expires_at = 5000;
        created_at = 1000;
        revoked_at = none;
        browser_retry_until = none;
        browser_retry_pair = none;
      }
      ∷ [];
}

abbrev with_refresh : Headers
with_refresh name =
    if same name (codes "cookie") then codes "__Host-authere_refresh=r1" ∷ [] else []

login_tests :
    ((login crates config 1 0 input fresh 1000 RateLimit.empty db).0 ≡ ok pair)
    × ((refresh_cookie crates with_refresh) ≡ some (codes "r1"))
    × (is_local_redirect (codes "/a") ≡ true)
    × (is_local_redirect (codes "//a") ≡ false)
unfolding logins
login_tests = (refl, refl, refl, refl)

login-IsLoggedIn_example :
    (is_ok (RateLimit.check config 1 0 RateLimit.empty).0 ≡ true)
    × IsLoggedIn crates input fresh 1000 db pair
unfolding logins
login-IsLoggedIn_example =
    login-IsLoggedIn crates config 1 0 input fresh 1000 RateLimit.empty db pair refl

abbrev refresh_session : Claims
unfolding refresh_claims
refresh_session = refresh_claims (codes "r1") 1000 (codes "7") 5000 (some 0) 1000

browser_logout_ends_example :
    verify_user_session 7 1000 (some 0) (browser_logout crates with_refresh none 1500 store).1
    ≡ err authentication_required
unfolding logins
browser_logout_ends_example =
    browser_logout_ends crates with_refresh none 1500 7 1000 (some 0) store
      (by_refresh (codes "r1") refresh_session refl refl) refl
