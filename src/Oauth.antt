-- ===== src/Oauth.antt =====
-- server/src/handlers/oauth.rs: the endpoints of the OpenID Connect provider: their errors and
-- redirects, the data that they read, and the browser's session.
pub mod Authorize
pub mod Exchange
pub mod UserInfo
pub mod Logout
pub mod Html
pub mod Trusted
pub mod Replies
pub mod Granted
pub mod Client
pub mod Issued
pub mod Disclosed
pub mod SignedOut
pub mod Sample
mod Examples
use authere.Base.{
  ℕ, Bool, true, false, not, ◌&&◌, Option, none, some, List, [], ◌∷◌, ◌++◌, any, ◌==◌,
  if◌then◌else◌,
}
use authere.Base.Text.{Text, codes, same}
use authere.Base.Rows.{find}
use authere.Base.Errors.{AppError, authentication_required, Result, ok, err}
use authere.Http.{Headers, ToStr, extract_cookie, auth_cookie_name, refresh_cookie_name}
use authere.User.{User}
use authere.Application.{Application, AppType, oidc, forward_auth}
use authere.Session
pub use authere.State.{Profile, Db}
unfoldable pub use authere.State.{get_user}
use authere.Session.{Claims, TokenPair, Store, of_account}
use authere.Session.Tokens.{Fresh, verify_access_token}
use authere.Session.Browser.{rotate_browser_token_pair}
use authere.Oidc.Codes.{Codes}
use authere.Oidc.Token.{Signer, IdTokenClaims}

pub data OAuthError : Type 0 where
  invalid_request : Text → OAuthError
  invalid_client : OAuthError
  invalid_grant : Text → OAuthError
  unauthorized_client unsupported_response_type unsupported_grant_type invalid_scope : OAuthError
  access_denied login_required server_error : OAuthError

-- `OAuthError::code`
unfoldable pub code : OAuthError → Text
code (invalid_request _) = codes "invalid_request"
code invalid_client = codes "invalid_client"
code (invalid_grant _) = codes "invalid_grant"
code unauthorized_client = codes "unauthorized_client"
code unsupported_response_type = codes "unsupported_response_type"
code unsupported_grant_type = codes "unsupported_grant_type"
code invalid_scope = codes "invalid_scope"
code access_denied = codes "access_denied"
code login_required = codes "login_required"
code server_error = codes "server_error"

-- `description`
unfoldable pub description : OAuthError → Option Text
description (invalid_request m) = some m
description (invalid_grant m) = some m
description _ = none

-- `token_endpoint_status`
unfoldable pub token_endpoint_status : OAuthError → ℕ
token_endpoint_status invalid_client = 401
token_endpoint_status server_error = 500
token_endpoint_status _ = 400

-- the parameters: the crates, and the state of the server that does not change
pub record Crates : Type 0 where
  pub sessions : Session.Crates
  pub signer : Signer
  pub to_str : ToStr
  pub urlencode : Text → Text
  pub urldecode : Text → Option Text
  pub decode_base64 : Text → Option Text
  pub is_base64url : Text → Bool
  pub hash_code : Text → Text
  pub challenge_of : Text → Text
  pub hash_secret : Text → Text
  pub decode_hint : Text → Option IdTokenClaims
  pub is_header_value : Text → Bool
  pub ascii_origin : Text → Option Text

abbrev pub is_oidc : AppType → Bool
is_oidc oidc = true
is_oidc forward_auth = false

-- `oidc_client_id = ? AND app_type = 'oidc'`
abbrev has_client_id : Text → Application → Bool
has_client_id client_id app =
    elim app.oidc_client_id [ none ↦ false | some id ↦ same id client_id ] && is_oidc app.app_type

-- `get_by_oidc_client_id` (server/src/application.rs)
unfoldable pub get_by_oidc_client_id : Text → List Application → Option Application
get_by_oidc_client_id client_id apps = find (has_client_id client_id) apps

abbrev is_empty_text : Text → Bool
is_empty_text [] = true
is_empty_text (c ∷ cs) = false

-- `Some(s) if !s.is_empty()`
unfoldable pub given : Option Text → Option Text
given none = none
given (some s) = if is_empty_text s then none else some s

module _ (urlencode : Text → Text) where
  unfoldable pub append_from : ℕ → List (Text × Text) → Text
  append_from sep [] = []
  append_from sep ((k, v) ∷ params) =
      sep ∷ urlencode k ++ b'=' ∷ urlencode v ++ append_from b'&' params

  -- `append_query`
  unfoldable pub append_query : Text → List (Text × Text) → Text
  append_query base params =
      base ++ append_from (if any (λ c. c == b'?') base then b'&' else b'?') params

-- the `state` parameter, where there is one
abbrev pub with_state : Option Text → List (Text × Text)
with_state none = []
with_state (some st) = (codes "state", st) ∷ []

-- the parameters of `authorize_error_redirect`
unfoldable pub error_params : Option Text → OAuthError → List (Text × Text)
error_params state_param e = (codes "error", code e) ∷ elim (description e) [
  | none ↦ with_state state_param
  | some text ↦ (codes "error_description", text) ∷ with_state state_param
]

-- an error that ends the session's lookup only where it is not a failed authentication
unfoldable pub if_unauthenticated {ℓ} : {A : Type ℓ} → AppError → (AppError → A) → A → A
if_unauthenticated authentication_required other next = next
if_unauthenticated e other next = other e

-- What the lookup of a session leaves: the result, the pair that was renewed, and the tables.
pub record Resolved : Type 0 where
  pub result : Result (Option Claims) AppError
  pub renewed : Option TokenPair
  pub store : Store

abbrev pub resolved : Result (Option Claims) AppError → Option TokenPair → Store → Resolved
resolved result renewed store = record { result = result; renewed = renewed; store = store }

module _ (crates : Session.Crates) (to_str : ToStr) where
  -- the second half of `resolve_browser_session`: the refresh cookie
  unfoldable pub resolve_refresh : Fresh → Headers → ℕ → Store → Resolved
  resolve_refresh fresh headers now store =
      elim (extract_cookie to_str headers refresh_cookie_name) [
        | none ↦ resolved (ok none) none store
        | some refresh ↦
            let (rotated, after) = rotate_browser_token_pair crates fresh refresh now store in
            elim rotated [
              | err e ↦
                  if_unauthenticated e (λ e. resolved (err e) none after)
                    (resolved (ok none) none after)
              | ok pair ↦ elim (verify_access_token crates pair.access_token now after) [
                | err e ↦ resolved (err e) none after
                | ok claims ↦ resolved (ok (some claims)) (some pair) after
              ]
            ]
      ]

  -- `resolve_browser_session`
  unfoldable pub resolve_browser_session : Fresh → Headers → ℕ → Store → Resolved
  resolve_browser_session fresh headers now store =
      elim (extract_cookie to_str headers auth_cookie_name) [
        | none ↦ resolve_refresh fresh headers now store
        | some access ↦ elim (verify_access_token crates access now store) [
          | ok claims ↦ resolved (ok (some claims)) none store
          | err e ↦
              if_unauthenticated e (λ e. resolved (err e) none store)
                (resolve_refresh fresh headers now store)
        ]
      ]
