-- ===== src/Oauth/Authorize.antt =====
-- `authorize` of server/src/handlers/oauth.rs.
use authere.Base.{
  ℕ, Bool, false, not, ◌&&◌, ◌||◌, Option, none, some, List, [], ◌∷◌, ◌++◌, any, all, length, ◌==◌,
  if◌then◌else◌, is_some, unwrap_or,
}
use authere.Base.Text.{Text, codes, same, is_ascii_alphanumeric}
use authere.Base.Errors.{AppError, Result, ok, err}
use authere.Http.{Headers, split_whitespace}
use authere.Application.{Application}
use authere.Application.Access.{check_access_resolved, validate_redirect_uri}
use authere.Session.{Claims, TokenPair}
use authere.Session.Tokens.{Fresh, get_roles}
use authere.Oidc.Codes.{Codes, Grant, issue}
use authere.Oidc.Token.{parse_scope, scope_contains, join_scope}
use authere.Oauth.{
  OAuthError, invalid_request, invalid_client, unauthorized_client, unsupported_response_type,
  invalid_scope, access_denied, login_required, server_error, Crates, Db, get_user, is_oidc,
  get_by_oidc_client_id, given, append_query, with_state, error_params, resolve_browser_session,
}

pub record AuthorizeQuery : Type 0 where
  pub response_type : Option Text
  pub client_id : Option Text
  pub redirect_uri : Option Text
  pub scope : Option Text
  pub state : Option Text
  pub nonce : Option Text
  pub code_challenge : Option Text
  pub code_challenge_method : Option Text
  pub prompt : Option Text
  pub max_age : Option Text

-- An error as JSON, or a redirect.
pub data Reply : Type 0 where
  failed : OAuthError → Reply
  redirect : Text → Reply

-- what is drawn at random: for the renewal of a session, and the code
pub record Draw : Type 0 where
  pub fresh : Fresh
  pub plaintext : Text

-- What a request leaves: the reply, the pair whose cookies are set, and the tables.
pub record Outcome : Type 0 where
  pub reply : Reply
  pub renewed : Option TokenPair
  pub db : Db

-- the trusted client and redirect URI of a request
pub record Client : Type 0 where
  pub app : Application
  pub redirect_uri : Text

abbrev pub is_known_scope : Text → Bool
is_known_scope s =
    same s (codes "openid")
    || same s (codes "profile")
    || same s (codes "email")
    || same s (codes "roles")

-- step 1 of `authorize_impl`
unfoldable pub check_client : AuthorizeQuery → List Application → Result Client OAuthError
check_client q apps = elim (given q.client_id) [
  | none ↦ err (invalid_request (codes "missing client_id"))
  | some client_id ↦ elim (given q.redirect_uri) [
    | none ↦ err (invalid_request (codes "missing redirect_uri"))
    | some uri ↦ elim (get_by_oidc_client_id client_id apps) [
      | none ↦ err invalid_client
      | some app ↦
          if not app.enabled || not (is_oidc app.app_type)
          then err unauthorized_client
          else if not (validate_redirect_uri app uri)
          then err (invalid_request (codes "redirect_uri not registered"))
          else ok (record { app = app; redirect_uri = uri })
    ]
  ]
]

abbrev is_none_word : List Text → Bool
is_none_word (w ∷ []) = same w (codes "none")
is_none_word _ = false

-- `prompt_none`
unfoldable pub prompt_none : AuthorizeQuery → Bool
prompt_none q = elim q.prompt [ none ↦ false | some p ↦ is_none_word (split_whitespace p) ]

abbrev is_challenge_byte : ℕ → Bool
is_challenge_byte b = is_ascii_alphanumeric b || b == b'-' || b == b'_'

-- the scope and the challenge of a request that may be granted
pub record Wanted : Type 0 where
  pub scope : List Text
  pub challenge : Text

module _ (crates : Crates) where
  open crates use {urlencode, is_base64url, sessions, to_str, hash_code}

  unfoldable pub is_s256_challenge : Text → Bool
  is_s256_challenge challenge =
      length challenge == 43 && all is_challenge_byte challenge && is_base64url challenge

  unfoldable pub check_challenge : AuthorizeQuery → List Text → Result Wanted OAuthError
  check_challenge q scope = elim (given q.code_challenge) [
    | none ↦ err (invalid_request (codes "missing code_challenge (PKCE required)"))
    | some challenge ↦
        if not (same (unwrap_or q.code_challenge_method (codes "plain")) (codes "S256"))
        then err (invalid_request (codes "code_challenge_method must be S256"))
        else if not (is_s256_challenge challenge)
        then err (invalid_request (codes "invalid S256 code_challenge"))
        else ok (record { scope = scope; challenge = challenge })
  ]

  -- the checks whose errors go back to the client
  unfoldable pub check_parameters : AuthorizeQuery → Result Wanted OAuthError
  check_parameters q =
      let scope = parse_scope (unwrap_or q.scope []) in
      if not (elim q.response_type [ none ↦ false | some t ↦ same t (codes "code") ])
      then err unsupported_response_type
      else if is_some q.max_age || is_some (given q.prompt) && not (prompt_none q)
      then err (invalid_request (codes "requested reauthentication or consent is not supported"))
      else if not (scope_contains scope (codes "openid")) || any (λ s. not (is_known_scope s)) scope
      then err invalid_scope
      else check_challenge q scope

  -- `authorize_error_redirect`
  unfoldable pub error_redirect : Text → Option Text → OAuthError → Reply
  error_redirect uri state_param e =
      redirect (append_query urlencode uri (error_params state_param e))

  -- `login_redirect`
  unfoldable pub login_redirect : Option Text → Reply
  login_redirect path_and_query = redirect (
      codes "/login?redirect_uri="
      ++ urlencode (unwrap_or path_and_query (codes "/oauth/authorize")))

  unfoldable pub needs_login : AuthorizeQuery → Text → Option Text → Reply
  needs_login q uri path_and_query =
      if prompt_none q
      then error_redirect uri q.state login_required
      else login_redirect path_and_query

  -- what `issue` is asked for
  unfoldable pub grant_for : AuthorizeQuery → Client → Wanted → ℕ → Claims → Grant
  grant_for q client wanted user_id claims = record {
    application_id = client.app.id;
    user_id = user_id;
    redirect_uri = client.redirect_uri;
    scope = join_scope wanted.scope;
    nonce = q.nonce;
    code_challenge = wanted.challenge;
    code_challenge_method = unwrap_or q.code_challenge_method (codes "plain");
    auth_time = unwrap_or claims.auth_time claims.iat;
    session_version = claims.session_version;
    session_exp = some (unwrap_or claims.session_exp claims.exp);
  }

  -- the reply to the outcome of `issue`
  unfoldable pub reply_issued :
      AuthorizeQuery → Client → Db → Result Text AppError × Codes → Reply × Db
  reply_issued q client db (err _, rows) =
      (error_redirect client.redirect_uri q.state server_error, record db { codes = rows })
  reply_issued q client db (ok text, rows) = (
    redirect
        (append_query urlencode client.redirect_uri ((codes "code", text) ∷ with_state q.state)),
    record db { codes = rows },
  )

  -- step 4
  unfoldable pub issue_code : AuthorizeQuery → Text → ℕ → Client → Grant → Db → Reply × Db
  unfolding reply_issued
  issue_code q plaintext now client grant db =
      reply_issued q client db (issue hash_code plaintext now grant db.codes)

  -- step 3, and step 4
  unfoldable pub authorize_user :
      AuthorizeQuery → Option Text → Text → ℕ → Client → Wanted → Claims → Db → Reply × Db
  authorize_user q path_and_query plaintext now client wanted claims db =
      elim (sessions.parse_uuid claims.sub) [
        | none ↦ (error_redirect client.redirect_uri q.state server_error, db)
        | some user_id ↦ elim (get_user user_id db) [
          | none ↦ (needs_login q client.redirect_uri path_and_query, db)
          | some user ↦
              if not user.active
              then (needs_login q client.redirect_uri path_and_query, db)
              else if not (
                  check_access_resolved sessions.parse_uuid db.sessions.tables client.app
                    (get_roles user.id db.sessions))
              then (error_redirect client.redirect_uri q.state access_denied, db)
              else issue_code q plaintext now client (grant_for q client wanted user_id claims) db
        ]
      ]

  -- the reply to what `resolve_browser_session` has found, given the tables that it leaves
  unfoldable pub reply_session :
      AuthorizeQuery
      → Option Text
      → Text
      → ℕ
      → Client
      → Wanted
      → Db
      → Option TokenPair
      → Result (Option Claims) AppError
      → Outcome
  reply_session q path_and_query plaintext now client wanted db renewed (err _) = record {
    reply = failed server_error;
    renewed = renewed;
    db = db;
  }
  reply_session q path_and_query plaintext now client wanted db renewed (ok none) = record {
    reply = needs_login q client.redirect_uri path_and_query;
    renewed = renewed;
    db = db;
  }
  reply_session q path_and_query plaintext now client wanted db renewed (ok (some claims)) =
      let (reply, final) = authorize_user q path_and_query plaintext now client wanted claims db in
      record { reply = reply; renewed = renewed; db = final }

  -- steps 2 to 4
  unfoldable pub authorize_session :
      AuthorizeQuery → Headers → Option Text → Draw → ℕ → Client → Wanted → Db → Outcome
  unfolding reply_session
  authorize_session q headers path_and_query draw now client wanted db =
      let r = resolve_browser_session sessions to_str draw.fresh headers now db.sessions in
      reply_session q path_and_query draw.plaintext now client wanted
        (record db { sessions = r.store }) r.renewed r.result

  -- `authorize`
  unfoldable pub authorize : AuthorizeQuery → Headers → Option Text → Draw → ℕ → Db → Outcome
  authorize q headers path_and_query draw now db = elim (check_client q db.applications) [
    | err e ↦ record { reply = failed e; renewed = none; db = db }
    | ok client ↦ elim (check_parameters q) [
      | err e ↦ record {
        reply = error_redirect client.redirect_uri q.state e;
        renewed = none;
        db = db;
      }
      | ok wanted ↦ authorize_session q headers path_and_query draw now client wanted db
    ]
  ]
