-- ===== src/Forward/Verify.antt =====
-- server/src/handlers/auth.rs: `verify_auth`, the proxy's question whether a request may pass, and
-- `build_auth_headers`.
use authere.Base.{ℕ, Bool, not, Option, none, some, List, [], ◌∷◌, ◌++◌, ◌==◌, drop, if◌then◌else◌}
use authere.Base.Text.{Text, codes, starts_with}
use authere.Base.Errors.{AppError, authentication_required, forbidden, Result, ok, err}
use authere.Http.{Headers, ToStr, extract_cookie}
use authere.User.{User}
use authere.Application.{Application}
use authere.Application.Policy.{HostRegex, find_matching}
use authere.Application.Access.{check_access_resolved}
use authere.Session.Tokens.{get_roles}
use authere.State.{Db, get_user}
use authere.Forward.Handoff
use authere.Forward.Handoff.{ForwardSession, verify_session}
use authere.Forward.Target.{
  Target, Urls, single_header, ensure_protected_origin, start_url, from_proxy,
}

-- The parameters: the crates, and the origin of the server.
pub record Proxy : Type 0 where
  pub origin : Text
  pub urls : Urls
  pub regex : HostRegex
  pub handoffs : Handoff.Crates
  pub to_str : ToStr
  pub is_header_value : Text → Bool
  pub show_uuid : ℕ → Text

-- the headers for the upstream
pub record AuthHeaders : Type 0 where
  pub x_auth_user : Text
  pub x_auth_username : Text
  pub x_auth_roles : Text
  pub x_auth_email : Text

-- The responses: leave to pass, with the headers; the start of a login; the page that says that the
-- user has no access, with the place to change users and the application; an error.
pub data Verdict : Type 0 where
  allowed : AuthHeaders → Verdict
  start : Text → Verdict
  denied : Text → Application → Verdict
  refused : AppError → Verdict

abbrev session_cookie : Text
session_cookie = codes "__Host-authere_forward"

-- `roles.join(",")`
unfoldable pub join_roles_text : List Text → Text
join_roles_text [] = []
join_roles_text (r ∷ []) = r
join_roles_text (r ∷ s ∷ rest) = r ++ b',' ∷ join_roles_text (s ∷ rest)

module _ (proxy : Proxy) where
  open proxy use {origin, urls, regex, handoffs, to_str, is_header_value, show_uuid}

  -- `HeaderValue::from_str(…).unwrap_or_else(…)`
  abbrev header_or_empty : Text → Text
  header_or_empty t = if is_header_value t then t else []

  -- `build_auth_headers`
  unfoldable pub build_auth_headers : User → List Text → Option Text → AuthHeaders
  build_auth_headers user roles email = record {
    x_auth_user = header_or_empty (show_uuid user.id);
    x_auth_username = header_or_empty user.username;
    x_auth_roles = header_or_empty (join_roles_text roles);
    x_auth_email = elim email [ none ↦ [] | some e ↦ header_or_empty e ];
  }

  -- `build_forward_auth_redirect`
  unfoldable pub build_forward_auth_redirect : Headers → Verdict
  build_forward_auth_redirect headers = elim (from_proxy urls to_str headers) [
    | err e ↦ refused e
    | ok target ↦ start (start_url urls target)
  ]

  -- the link of `build_forward_auth_denied_html` to another login
  unfoldable pub switch_user_url : Headers → Text
  switch_user_url headers = elim (from_proxy urls to_str headers) [
    | err e ↦ origin ++ codes "/login"
    | ok target ↦ start_url urls target ++ codes "&login=true"
  ]

  -- the credential of a request: the session cookie, or a bearer token
  unfoldable pub credential : Headers → Option Text
  credential headers = elim (extract_cookie to_str headers session_cookie) [
    | some token ↦ some token
    | none ↦ elim (single_header to_str headers (codes "authorization")) [
      | none ↦ none
      | some value ↦ if starts_with value (codes "Bearer ") then some (drop 7 value) else none
    ]
  ]

  unfoldable pub verdict_of_error : Headers → AppError → Verdict
  verdict_of_error headers authentication_required = build_forward_auth_redirect headers
  verdict_of_error headers e = refused e

  -- the end of `verify_auth`: the user of a session, and the access
  unfoldable pub verify_access : Headers → Application → ForwardSession → Db → Verdict
  verify_access headers app claims db = elim (get_user claims.sub db) [
    | none ↦ refused authentication_required
    | some user ↦
        let roles = get_roles user.id db.sessions in
        if not (check_access_resolved handoffs.parse_uuid db.sessions.tables app roles)
        then denied (switch_user_url headers) app
        else if not (claims.application_id == app.id)
        then build_forward_auth_redirect headers
        else allowed (build_auth_headers user roles user.email)
  ]

  -- `verify_auth` from the credential on
  unfoldable pub verify_credential : Headers → ℕ → Target → Application → Db → Verdict
  verify_credential headers now target app db = elim (credential headers) [
    | none ↦ build_forward_auth_redirect headers
    | some token ↦ elim (verify_session handoffs token target.url.origin now db.sessions) [
      | err e ↦ verdict_of_error headers e
      | ok claims ↦ verify_access headers app claims db
    ]
  ]

  -- the policy of a target
  unfoldable pub find_policy : Target → Db → Result Application AppError
  find_policy target db =
      elim (find_matching regex target.host target.policy_path db.applications) [
        | err e ↦ err e
        | ok none ↦ err forbidden
        | ok (some app) ↦ ok app
      ]

  -- `verify_auth`
  unfoldable pub verify_auth : Headers → ℕ → Db → Verdict
  verify_auth headers now db = elim (from_proxy urls to_str headers) [
    | err e ↦ refused e
    | ok target ↦ elim (ensure_protected_origin urls origin target) [
      | err e ↦ refused e
      | ok _ ↦ elim (find_policy target db) [
        | err e ↦ refused e
        | ok app ↦ verify_credential headers now target app db
      ]
    ]
  ]
