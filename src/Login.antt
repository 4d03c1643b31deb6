-- ===== src/Login.antt =====
-- server/src/handlers/auth.rs: the handlers that log in, refresh and log out, and
-- `is_local_redirect` of server/src/handlers/mod.rs. The limiter's clock is `instant`.
pub mod Guarded
pub mod Ended
mod Examples
use authere.Base.{
  ℕ, Bool, true, false, not, ◌&&◌, ◌||◌, Option, none, some, List, [], ◌∷◌, any, ◌==◌, leb, drop,
  length, if◌then◌else◌,
}
use authere.Base.Text.{Text, codes, starts_with, is_ascii_control}
use authere.Base.Rows.{find}
use authere.Base.Errors.{AppError, authentication_required, input_error, Result, ok, err, ◌>>=◌}
use authere.Http.{Headers, ToStr, extract_cookie, get_header, trim, split, auth_cookie_name}
use authere.RateLimit
use authere.RateLimit.{Config, Entries}
use authere.User.{User, IsMatch, check_given, validate_username}
use authere.User.Password
use authere.User.Password.{Argon, validate_password}
use authere.Totp
use authere.Totp.Login.{LoginError, enforce_mfa}
use authere.Session
use authere.Session.{TokenPair, Store, revoke_user_access_tokens, revoke_all_user_tokens}
use authere.Session.Tokens.{
  Fresh, get_roles, generate_token_pair, verify_access_token, consume_refresh_token,
  rotate_token_pair,
}
use authere.Session.Browser.{rotate_browser_token_pair}
use authere.State.{Db, users_of}

pub record LoginInput : Type 0 where
  pub username : Text
  pub password : Text
  pub totp_code : Option Text

-- The parameters: the crates, and the setting `session_expiry_seconds`.
pub record Crates : Type 0 where
  pub is_match : IsMatch
  pub argon : Argon
  pub totp : Totp.Crates
  pub sessions : Session.Crates
  pub to_str : ToStr
  pub is_header_value : Text → Bool
  pub session_expiry_seconds : ℕ

-- `LoginError` of server/src/handlers/mod.rs with its refusal by the rate limiter
pub data Failure : Type 0 where
  limited : ℕ → Failure
  rejected : LoginError → Failure

-- `char::is_control` on some character of a text
unfoldable pub has_control : Text → Bool
has_control [] = false
has_control (c ∷ []) = is_ascii_control c
has_control (c ∷ d ∷ s) =
    is_ascii_control c || c == 194 && leb 128 d && leb d 159 || has_control (d ∷ s)

-- `is_local_redirect`
unfoldable pub is_local_redirect : Text → Bool
is_local_redirect path =
    starts_with path (codes "/")
    && not (starts_with path (codes "//"))
    && not (any (λ c. c == b'\\') path)
    && not (has_control path)

-- what the browser is answered: a redirect, or a message
pub data BrowserReply : Type 0 where
  see_other : Text → BrowserReply
  success : BrowserReply

abbrev refresh_prefix : Text
refresh_prefix = codes "__Host-authere_refresh="

abbrev is_refresh_cookie : Text → Bool
is_refresh_cookie s = starts_with s refresh_prefix

abbrev trim_all : List Text → List Text
trim_all [] = []
trim_all (s ∷ rest) = trim s ∷ trim_all rest

module _ (crates : Crates) where
  open crates use {is_match, argon, totp, sessions, to_str, is_header_value, session_expiry_seconds}

  -- the checks of a login's input
  unfoldable pub check_input : LoginInput → Result (Unit {0}) AppError
  check_input input = elim (validate_username is_match input.username) [
    | err msg ↦ err (input_error (msg ∷ []))
    | ok _ ↦ elim (validate_password input.password) [
      | err msg ↦ err (input_error (msg ∷ []))
      | ok _ ↦ ok tt
    ]
  ]

  -- the password and the second factor of a login
  unfoldable pub authenticate : LoginInput → ℕ → Db → Result User LoginError × Db
  authenticate input now db = elim (check_input input) [
    | err e ↦ (err (LoginError.app e), db)
    | ok _ ↦
        elim (Password.login argon input.username input.password (users_of db) db.authenticators) [
          | err e ↦ (err (LoginError.app e), db)
          | ok user ↦
              let (proved, factors) = enforce_mfa totp user.id input.totp_code now db.factors in
              let after = record db { factors = factors } in
              elim proved [ err e ↦ (err e, after) | ok _ ↦ (ok user, after) ]
        ]
  ]

  -- the tokens of a user who has been authenticated
  unfoldable pub start_session : Fresh → ℕ → User → Db → Result TokenPair LoginError × Db
  start_session fresh now user db =
      let (made, store) =
        generate_token_pair sessions session_expiry_seconds fresh now user.id
          (get_roles user.id db.sessions) db.sessions in
      let after = record db { sessions = store } in
      elim made [ err e ↦ (err (LoginError.app e), after) | ok pair ↦ (ok pair, after) ]

  -- a login after the rate limiter
  unfoldable pub log_in : LoginInput → Fresh → ℕ → Db → Result TokenPair LoginError × Db
  log_in input fresh now db =
      let (authenticated, after) = authenticate input now db in
      elim authenticated [ err e ↦ (err e, after) | ok user ↦ start_session fresh now user after ]

  -- `login`
  unfoldable pub login :
      Config
      → ℕ
      → ℕ
      → LoginInput
      → Fresh
      → ℕ
      → Entries
      → Db
      → Result TokenPair Failure × Entries × Db
  login config ip instant input fresh now entries db =
      let (admitted, limiter) = RateLimit.check config ip instant entries in
      elim admitted [
        | err wait ↦ (err (limited wait), limiter, db)
        | ok _ ↦
            let (pair, after) = log_in input fresh now db in
            (elim pair [ err e ↦ err (rejected e) | ok p ↦ ok p ], limiter, after)
      ]

  -- where a browser goes after a login or a logout
  unfoldable pub redirect_to : Option Text → Result BrowserReply AppError
  redirect_to none = ok success
  redirect_to (some uri) =
      if not (is_local_redirect uri)
      then ok success
      else if is_header_value uri
      then ok (see_other uri)
      else err (input_error ("Invalid redirect_uri" ∷ []))

  -- `browser_login_response`: the pair whose cookies are set, and the reply
  unfoldable pub browser_login_response :
      TokenPair → Option Text → Result (TokenPair × BrowserReply) AppError
  browser_login_response pair redirect_uri =
      redirect_to redirect_uri >>= (λ reply. ok (pair, reply))

  -- the reply to the outcome of a browser's login
  unfoldable pub answer_browser :
      Option Text → Result TokenPair LoginError → Result (TokenPair × BrowserReply) Failure
  answer_browser redirect_uri (err e) = err (rejected e)
  answer_browser redirect_uri (ok pair) = elim (browser_login_response pair redirect_uri) [
    | err e ↦ err (rejected (LoginError.app e))
    | ok reply ↦ ok reply
  ]

  -- `browser_login`
  unfoldable pub browser_login :
      Config
      → ℕ
      → ℕ
      → LoginInput
      → Option Text
      → Fresh
      → ℕ
      → Entries
      → Db
      → Result (TokenPair × BrowserReply) Failure × Entries × Db
  browser_login config ip instant input redirect_uri fresh now entries db =
      let (admitted, limiter) = RateLimit.check config ip instant entries in
      elim admitted [
        | err wait ↦ (err (limited wait), limiter, db)
        | ok _ ↦
            let (pair, after) = log_in input fresh now db in
            (answer_browser redirect_uri pair, limiter, after)
      ]

  -- the user of a pair that has been rotated
  unfoldable pub check_pair : TokenPair → ℕ → Store → Result TokenPair AppError
  check_pair pair now store =
      verify_access_token sessions pair.access_token now store >>= (λ claims.
        elim (sessions.parse_uuid claims.sub) [
          | none ↦ err authentication_required
          | some _ ↦ ok pair
        ])

  -- `refresh_token`
  unfoldable pub refresh_token : Text → Fresh → ℕ → Store → Result TokenPair AppError × Store
  refresh_token token fresh now store =
      let (rotated, after) = rotate_token_pair sessions fresh token now store in
      (rotated >>= (λ pair. check_pair pair now after), after)

  -- `verify_and_revoke_refresh_token` of server/src/user/auth/token.rs
  unfoldable pub verify_and_revoke_refresh_token : Text → ℕ → Store → Result ℕ AppError × Store
  verify_and_revoke_refresh_token token now store =
      let (consumed, after) = consume_refresh_token sessions token now store in
      (consumed >>= (λ session. ok session.0), after)

  -- `logout`
  unfoldable pub logout : Text → ℕ → Store → Result (Unit {0}) AppError × Store
  logout token now store =
      let (user, after) = verify_and_revoke_refresh_token token now store in
      elim user [ err e ↦ (err e, after) | ok id ↦ (ok tt, revoke_user_access_tokens id now after) ]

  -- the refresh cookie of the first `Cookie` header
  unfoldable pub refresh_cookie : Headers → Option Text
  refresh_cookie headers = elim (get_header (codes "cookie") headers) [
    | none ↦ none
    | some value ↦ elim (to_str value) [
      | none ↦ none
      | some cookies ↦ elim (find is_refresh_cookie (trim_all (split b';' cookies))) [
        | none ↦ none
        | some s ↦ some (drop (length refresh_prefix) s)
      ]
    ]
  ]

  abbrev unless_unauthenticated : AppError → Result (Option ℕ) AppError
  unless_unauthenticated authentication_required = ok none
  unless_unauthenticated e = err e

  -- the user whom the refresh cookie names, which is used up
  unfoldable pub user_of_refresh : Headers → ℕ → Store → Result (Option ℕ) AppError × Store
  user_of_refresh headers now store = elim (refresh_cookie headers) [
    | none ↦ (ok none, store)
    | some token ↦
        let (user, after) = verify_and_revoke_refresh_token token now store in
        (elim user [ ok id ↦ ok (some id) | err e ↦ unless_unauthenticated e ], after)
  ]

  -- the user whom the access cookie names
  unfoldable pub user_of_access : Headers → ℕ → Store → Result (Option ℕ) AppError
  user_of_access headers now store = elim (extract_cookie to_str headers auth_cookie_name) [
    | none ↦ ok none
    | some access ↦ elim (verify_access_token sessions access now store) [
      | ok claims ↦ ok (sessions.parse_uuid claims.sub)
      | err e ↦ unless_unauthenticated e
    ]
  ]

  -- the user to log out
  unfoldable pub logout_user : Headers → ℕ → Store → Result (Option ℕ) AppError × Store
  logout_user headers now store =
      let (user, after) = user_of_refresh headers now store in
      elim user [
        | err e ↦ (err e, after)
        | ok (some id) ↦ (ok (some id), after)
        | ok none ↦ (user_of_access headers now after, after)
      ]

  abbrev revoke_found : Option ℕ → ℕ → Store → Store
  revoke_found none now store = store
  revoke_found (some id) now store = revoke_all_user_tokens id now store

  -- `browser_logout`
  unfoldable pub browser_logout :
      Headers → Option Text → ℕ → Store → Result BrowserReply AppError × Store
  browser_logout headers redirect_uri now store =
      let (user, after) = logout_user headers now store in
      elim user [
        | err e ↦ (err e, after)
        | ok found ↦ (redirect_to redirect_uri, revoke_found found now after)
      ]

  -- `browser_refresh`
  unfoldable browser_refresh : Headers → Fresh → ℕ → Store → Result TokenPair AppError × Store
  browser_refresh headers fresh now store = elim (refresh_cookie headers) [
    | none ↦ (err authentication_required, store)
    | some token ↦
        let (rotated, after) = rotate_browser_token_pair sessions fresh token now store in
        (rotated >>= (λ pair. check_pair pair now after), after)
  ]
