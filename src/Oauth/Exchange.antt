-- ===== src/Oauth/Exchange.antt =====
-- `token` of server/src/handlers/oauth.rs: the exchange of an authorization code.
use authere.Base.{
  ℕ, Bool, true, false, not, ◌&&◌, ◌||◌, Option, none, some, List, map, length, ◌==◌, if◌then◌else◌,
  is_some, is_empty,
}
use authere.Base.Text.{Text, codes, same, eq_ignore_ascii_case}
use authere.Base.Errors.{Result, ok, err, is_ok}
use authere.Http.{Headers, get_header, split_once, trim}
use authere.RateLimit
use authere.RateLimit.{Config, Entries}
use authere.Application.{Application, verify_client_secret}
use authere.Application.Access.{check_access_resolved, validate_redirect_uri}
use authere.Session.{verify_user_session}
use authere.Session.Tokens.{get_roles}
use authere.Oidc.Codes.{ConsumedCode, Claim, consume}
use authere.Oidc.Token.{TokenResponse, parse_scope, mint_token_pair}
use authere.Oauth.{
  OAuthError, invalid_request, invalid_client, invalid_grant, unauthorized_client,
  unsupported_grant_type, server_error, Crates, Db, get_user, is_oidc, get_by_oidc_client_id, given,
}

pub record TokenForm : Type 0 where
  pub grant_type : Option Text
  pub code : Option Text
  pub redirect_uri : Option Text
  pub client_id : Option Text
  pub client_secret : Option Text
  pub code_verifier : Option Text

abbrev pub authorization : Text
authorization = codes "authorization"

-- what a client presents
pub record Credentials : Type 0 where
  pub client_id : Text
  pub secret : Option Text

-- the code, and what binds it
pub record Presented : Type 0 where
  pub code : Text
  pub redirect_uri : Text
  pub code_verifier : Text

abbrev plus_to_space : ℕ → ℕ
plus_to_space c = if c == b'+' then b' ' else c

abbrev pub or_else {ℓ} : {A : Type ℓ} → Option A → Option A → Option A
or_else none other = other
or_else (some a) other = some a

abbrev pub is_other : Text → Option Text → Bool
is_other id none = false
is_other id (some body_id) = not (same body_id id)

-- a refusal of the rate limiter, with the time to wait, or an answer
pub data Answer : Type 0 where
  limited : ℕ → Answer
  answered : Result TokenResponse OAuthError → Answer

abbrev pub claim_of : Application → Presented → Claim
claim_of app presented = record {
  application_id = app.id;
  redirect_uri = presented.redirect_uri;
  code_verifier = presented.code_verifier;
}

unfoldable pub read_presented : TokenForm → Result Presented OAuthError
read_presented form = elim (given form.code) [
  | none ↦ err (invalid_request (codes "missing code"))
  | some code ↦ elim (given form.redirect_uri) [
    | none ↦ err (invalid_request (codes "missing redirect_uri"))
    | some redirect_uri ↦ elim (given form.code_verifier) [
      | none ↦ err (invalid_request (codes "missing code_verifier"))
      | some code_verifier ↦
          ok (record { code = code; redirect_uri = redirect_uri; code_verifier = code_verifier })
    ]
  ]
]

module _ (crates : Crates) where
  open crates use {
    sessions, signer, to_str, urldecode, decode_base64, hash_code, challenge_of, hash_secret,
  }

  -- the two parts of the decoded credentials
  unfoldable pub decode_pair : Text × Text → Option (Text × Text)
  decode_pair pair = elim (urldecode (map plus_to_space pair.0)) [
    | none ↦ none
    | some id ↦ elim (urldecode (map plus_to_space pair.1)) [
      | none ↦ none
      | some secret ↦ some (id, secret)
    ]
  ]

  unfoldable pub parse_credentials : Text → Option (Text × Text)
  parse_credentials raw = elim (split_once b' ' raw) [
    | none ↦ none
    | some (scheme, b64) ↦
        if not (eq_ignore_ascii_case scheme (codes "Basic"))
        then none
        else elim (decode_base64 (trim b64)) [
          | none ↦ none
          | some s ↦ elim (split_once b':' s) [ none ↦ none | some pair ↦ decode_pair pair ]
        ]
  ]

  -- `parse_basic_auth`
  unfoldable pub parse_basic_auth : Headers → Option (Text × Text)
  parse_basic_auth headers = elim (get_header authorization headers) [
    | none ↦ none
    | some value ↦ elim (to_str value) [ none ↦ none | some raw ↦ parse_credentials raw ]
  ]

  unfoldable pub conflicts : TokenForm → Option (Text × Text) → Bool
  conflicts form none = false
  conflicts form (some (id, secret)) = is_some form.client_secret || is_other id form.client_id

  -- the client's name and secret, from one place
  unfoldable pub read_credentials : Headers → TokenForm → Result Credentials OAuthError
  read_credentials headers form =
      let basic = parse_basic_auth headers in
      if not (is_empty (headers authorization))
        && (not (is_some basic) || not (length (headers authorization) == 1))
      then err invalid_client
      else if conflicts form basic
      then err (invalid_request (codes "conflicting client authentication"))
      else elim (given
          (or_else (elim basic [ none ↦ none | some (id, _) ↦ some id ]) form.client_id)) [
            | none ↦ err invalid_client
            | some id ↦ ok (record {
              client_id = id;
              secret =
                  or_else (elim basic [ none ↦ none | some (_, secret) ↦ some secret ])
                    form.client_secret;
            })
          ]

  unfoldable pub is_authenticated : Application → Option Text → Bool
  is_authenticated app secret =
      if app.oidc_confidential
      then elim secret [ none ↦ false | some s ↦ verify_client_secret hash_secret app s ]
      else true

  -- the client that has authenticated itself
  unfoldable pub authenticate_client :
      Headers → TokenForm → List Application → Result Application OAuthError
  authenticate_client headers form apps = elim (read_credentials headers form) [
    | err e ↦ err e
    | ok credentials ↦
        if not
          (elim form.grant_type [ none ↦ false | some t ↦ same t (codes "authorization_code") ])
        then err unsupported_grant_type
        else elim (get_by_oidc_client_id credentials.client_id apps) [
          | none ↦ err invalid_client
          | some app ↦
              if not app.enabled || not (is_oidc app.app_type)
              then err unauthorized_client
              else if is_authenticated app credentials.secret
              then ok app
              else err invalid_client
        ]
  ]

  -- what is left to do with the consumed code
  unfoldable pub issue_tokens :
      Text → ℕ → Application → Text → ConsumedCode → Db → Result TokenResponse OAuthError
  issue_tokens jti now app redirect_uri consumed db =
      if not (
          is_ok (
            verify_user_session consumed.user_id consumed.auth_time consumed.session_version
              db.sessions))
        || not (validate_redirect_uri app redirect_uri)
      then err (invalid_grant (codes "authorization is no longer valid"))
      else elim (get_user consumed.user_id db) [
        | none ↦ err (invalid_grant (codes "user no longer active"))
        | some user ↦
            let roles = get_roles user.id db.sessions in
            if not user.active
            then err (invalid_grant (codes "user no longer active"))
            else if not (check_access_resolved sessions.parse_uuid db.sessions.tables app roles)
            then err (invalid_grant (codes "application access was revoked"))
            else elim (mint_token_pair signer jti now app
                (record { user = user; roles = roles; scope = parse_scope consumed.scope })
                (record {
                  nonce = consumed.nonce;
                  auth_time = consumed.auth_time;
                  session_version = consumed.session_version;
                  session_exp = consumed.session_exp;
                })) [ err _ ↦ err server_error | ok tokens ↦ ok tokens ]
      ]

  unfoldable pub exchange_code :
      Text → ℕ → Application → Presented → Db → Result TokenResponse OAuthError × Db
  exchange_code jti now app presented db =
      let (consumed, rows) =
        consume hash_code challenge_of presented.code now (claim_of app presented) db.codes in
      let after = record db { codes = rows } in
      elim consumed [
        | none ↦ (err (invalid_grant (codes "code or authorization binding invalid")), after)
        | some code ↦ (issue_tokens jti now app presented.redirect_uri code after, after)
      ]

  -- `token`, after the rate limiter
  unfoldable pub token_of :
      Headers → TokenForm → Text → ℕ → Db → Result TokenResponse OAuthError × Db
  token_of headers form jti now db = elim (authenticate_client headers form db.applications) [
    | err e ↦ (err e, db)
    | ok app ↦ elim (read_presented form) [
      | err e ↦ (err e, db)
      | ok presented ↦ exchange_code jti now app presented db
    ]
  ]

  -- `token`; `instant` is the limiter's clock
  unfoldable pub token :
      Config → ℕ → ℕ → Headers → TokenForm → Text → ℕ → Entries → Db → Answer × Entries × Db
  token config ip instant headers form jti now entries db =
      let (admitted, limiter) = RateLimit.check config ip instant entries in
      elim admitted [
        | err wait ↦ (limited wait, limiter, db)
        | ok _ ↦
            let (response, after) = token_of headers form jti now db in
            (answered response, limiter, after)
      ]
