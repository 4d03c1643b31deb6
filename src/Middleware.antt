-- ===== src/Middleware.antt =====
-- server/src/auth_middleware.rs: who a request is from; and server/src/browser_security.rs: which
-- requests of browsers reach a handler. Of a response the status and the headers are modelled.
pub mod Admin
pub mod Origin
mod Examples
use authere.Base.{
  ℕ, Bool, true, false, not, ◌&&◌, ◌||◌, Option, none, some, List, [], ◌∷◌, ◌++◌, any, drop, length,
  if◌then◌else◌,
}
use authere.Base.Text.{Text, codes, same, starts_with, contains}
use authere.Base.Rows.{delete_where}
use authere.Base.Errors.{
  AppError, authentication_required, forbidden, internal_error, Result, ok, err,
}
use authere.Http.{Headers, ToStr, get_header, trim, split}
use authere.Role.{role_admin}
use authere.Session
use authere.Session.{Store}
use authere.Session.Tokens.{verify_access_token}

abbrev strip_prefix : Text → Text → Option Text
strip_prefix prefix s = if starts_with s prefix then some (drop (length prefix) s) else none

abbrev token_prefix : Text
token_prefix = codes "__Host-authere_token="

-- the first `__Host-authere_token` of the pieces of a cookie header
unfoldable pub find_token : List Text → Option Text
find_token [] = none
find_token (piece ∷ pieces) =
    let later = find_token pieces in
    if starts_with (trim piece) token_prefix then strip_prefix token_prefix (trim piece) else later

pub record AuthUser : Type 0 where
  pub user_id : ℕ
  pub roles : List Text

-- `has_role`, `is_admin`
abbrev has_role : Text → AuthUser → Bool
has_role role user = contains user.roles role

unfoldable pub is_admin : AuthUser → Bool
is_admin user = has_role role_admin user

module _ (to_str : ToStr) where
  abbrev read_header : Text → Headers → Option Text
  read_header name headers = elim (get_header name headers) [
    | none ↦ none
    | some value ↦ to_str value
  ]

  unfoldable pub bearer_token : Headers → Option Text
  bearer_token headers = elim (read_header (codes "authorization") headers) [
    | none ↦ none
    | some value ↦ strip_prefix (codes "Bearer ") value
  ]

  unfoldable pub cookie_token : Headers → Option Text
  cookie_token headers = elim (read_header (codes "cookie") headers) [
    | none ↦ none
    | some cookies ↦ find_token (split b';' cookies)
  ]

  -- `extract_token`
  unfoldable pub extract_token : Headers → Option Text
  extract_token headers = elim (bearer_token headers) [
    | some token ↦ some token
    | none ↦ cookie_token headers
  ]

module _ (sessions : Session.Crates) (to_str : ToStr) where
  -- `AuthUser::from_request_parts`
  unfoldable pub auth_user : Headers → ℕ → Store → Result AuthUser AppError
  auth_user headers now store = elim (extract_token to_str headers) [
    | none ↦ err authentication_required
    | some token ↦ elim (verify_access_token sessions token now store) [
      | err e ↦ err e
      | ok claims ↦ elim (sessions.parse_uuid claims.sub) [
        | none ↦ err (internal_error "Invalid user ID in token")
        | some user_id ↦ ok (record { user_id = user_id; roles = claims.roles })
      ]
    ]
  ]

  -- `AdminUser::from_request_parts`
  unfoldable pub admin_user : Headers → ℕ → Store → Result AuthUser AppError
  admin_user headers now store = elim (auth_user headers now store) [
    | err e ↦ err e
    | ok user ↦ if is_admin user then ok user else err forbidden
  ]

-- the methods that the middleware tells apart
pub data Method : Type 0 where
  get head options post other : Method

abbrev pub is_safe : Method → Bool
is_safe get = true
is_safe head = true
is_safe options = true
is_safe post = false
is_safe other = false

abbrev is_post : Method → Bool
is_post get = false
is_post head = false
is_post options = false
is_post post = true
is_post other = false

pub record Request : Type 0 where
  pub method : Method
  pub path : Text
  pub headers : Headers

pub record Reply : Type 0 where
  pub status : ℕ
  pub fields : List (Text × Text)

abbrev pub refused : Reply
refused = record { status = 403; fields = [] }

-- `oidc_logout`
abbrev pub is_oidc_logout : Request → Bool
is_oidc_logout request = is_post request.method && same request.path (codes "/oauth/end_session")

abbrev pub is_sensitive : Text → Bool
is_sensitive path =
    starts_with path (codes "/api/")
    || starts_with path (codes "/oauth/")
    || starts_with path (codes "/.authere/")

abbrev pub has_field : Text → Text × Text → Bool
has_field name field = same name field.0

-- `insert` of a header, in place of those of its name
unfoldable pub insert : Text → Text → Reply → Reply
insert name value reply = record reply {
  fields = (name, value) ∷ delete_where (has_field name) reply.fields;
}

abbrev secured : Reply → Reply
secured reply = insert (codes "referrer-policy") (codes "no-referrer") (
    insert (codes "x-frame-options") (codes "DENY")
      (insert (codes "x-content-type-options") (codes "nosniff") reply))

abbrev uncached : Reply → Reply
uncached reply =
    insert (codes "pragma") (codes "no-cache")
      (insert (codes "cache-control") (codes "no-store") reply)

-- the headers that the middleware sets
unfoldable pub with_headers : Bool → Reply → Reply
with_headers sensitive reply = if sensitive then uncached (secured reply) else secured reply

-- the check of `sec-fetch-site`
unfoldable pub is_site_allowed : Option Text → Bool
is_site_allowed none = true
is_site_allowed (some value) = same value (codes "same-origin") || same value (codes "none")

module _ (to_str : ToStr) (allowed_origins : List Text) where
  unfoldable pub is_listed : Text → Bool
  is_listed value = elim (to_str value) [
    | none ↦ false
    | some origin ↦ not (same origin (codes "null")) && contains allowed_origins origin
  ]

  -- `allowed`
  unfoldable pub is_allowed : Headers → Bool
  is_allowed headers = elim (get_header (codes "origin") headers) [
    | some origin ↦ is_listed origin
    | none ↦ is_site_allowed (get_header (codes "sec-fetch-site") headers)
  ]

  -- `protect_browser_requests` before a handler that acts on a state
  unfoldable pub protect_browser_requests {ℓ} :
      {S : Type ℓ} → (Request → S → Reply × S) → Request → S → Reply × S
  protect_browser_requests next request state =
      if not (is_safe request.method)
        && not (is_oidc_logout request)
        && not (is_allowed request.headers)
      then (refused, state)
      else let (reply, after) = next request state in
        (with_headers (is_sensitive request.path) reply, after)
