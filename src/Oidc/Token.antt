-- ===== src/Oidc/Token.antt =====
-- server/src/oidc/token.rs: scopes, ID tokens and the access tokens of OpenID Connect clients.
-- Signing and reading a JWT and the text of an id are parameters; the reader checks the signature,
-- the issuer, the claims that are required and the expiry.
pub mod Scope
pub mod Minted
mod Examples
use authere.Base.{
  ℕ, ◌+◌, ◌-◌, Bool, true, false, not, ◌||◌, Option, none, some, List, [], ◌∷◌, ◌++◌, any, min, leb,
  if◌then◌else◌, unwrap_or,
}
use authere.Base.Text.{Text, codes, same, contains}
use authere.Base.Errors.{AppError, authentication_required, internal_error, Result, ok, err, ◌>>=◌}
use authere.Http.{split_whitespace}
use authere.User.{User}
use authere.Application.{Application}
use authere.Oidc.Codes.{max_i64}

abbrev id_token_lifetime : ℕ
id_token_lifetime = 3600

abbrev oidc_access_token_lifetime : ℕ
oidc_access_token_lifetime = 3600

-- `IdTokenClaims`
pub record IdTokenClaims : Type 0 where
  pub iss : Text
  pub sub : Text
  pub aud : Text
  pub exp : ℕ
  pub iat : ℕ
  pub auth_time : ℕ
  pub session_version : Option ℕ
  pub nonce : Option Text
  pub name : Option Text
  pub preferred_username : Option Text
  pub updated_at : Option ℕ
  pub email : Option Text
  email_verified : Option Bool
  pub roles : Option (List Text)

-- `OidcAccessClaims`
pub record OidcAccessClaims : Type 0 where
  pub iss : Text
  pub sub : Text
  pub aud : Text
  pub exp : ℕ
  pub iat : ℕ
  pub jti : Text
  pub scope : Text
  pub typ : Text
  pub session_version : Option ℕ

-- `TokenResponse`
pub record TokenResponse : Type 0 where
  pub access_token : Text
  pub id_token : Text
  pub token_type : Text
  pub expires_in : ℕ
  pub scope : Text

-- the parameters: the origin that issues, and the JWT crate with the signing key
pub record Signer : Type 0 where
  pub origin : Text
  pub encode_id : IdTokenClaims → Option Text
  pub encode_access : OidcAccessClaims → Option Text
  pub decode_access : ℕ → Text → Option OidcAccessClaims
  pub show_uuid : ℕ → Text

-- the loop of `parse_scope`
unfoldable pub unique_from : List Text → List Text → List Text
unique_from out [] = out
unique_from out (token ∷ tokens) =
    unique_from (if contains out token then out else out ++ (token ∷ [])) tokens

-- `parse_scope`
unfoldable pub parse_scope : Text → List Text
parse_scope s = unique_from [] (split_whitespace s)

-- `scope_contains`
abbrev pub scope_contains : List Text → Text → Bool
scope_contains scope needle = any (λ s. same s needle) scope

-- `scope.join(" ")`
unfoldable pub join_scope : List Text → Text
join_scope [] = []
join_scope (s ∷ []) = s
join_scope (s ∷ t ∷ rest) = s ++ b' ' ∷ join_scope (t ∷ rest)

-- who a token is for: the client, the user with the roles, and the scope
pub record Subject : Type 0 where
  pub user : User
  pub roles : List Text
  pub scope : List Text

-- the session that a token belongs to
pub record Origin : Type 0 where
  pub nonce : Option Text
  pub auth_time : ℕ
  pub session_version : Option ℕ
  pub session_exp : Option ℕ

module _ (signer : Signer) where
  open signer use {origin, encode_id, encode_access, decode_access, show_uuid}

  -- `build_id_token_claims`
  unfoldable pub build_id_token_claims : Text → Subject → Option Text → ℕ → ℕ → IdTokenClaims
  build_id_token_claims client_id subject nonce auth_time now =
      let profile = scope_contains subject.scope (codes "profile") in
      record {
        iss = origin;
        sub = show_uuid subject.user.id;
        aud = client_id;
        exp = now + id_token_lifetime;
        iat = now;
        auth_time = auth_time;
        session_version = none;
        nonce = nonce;
        name = if profile then some subject.user.name else none;
        preferred_username = if profile then some subject.user.username else none;
        updated_at = if profile then some subject.user.updated_at else none;
        email = if scope_contains subject.scope (codes "email") then subject.user.email else none;
        email_verified = none;
        roles = if scope_contains subject.scope (codes "roles") then some subject.roles else none;
      }

  -- `encode_id_token`
  unfoldable pub encode_id_token : IdTokenClaims → Result Text AppError
  encode_id_token claims = elim (encode_id claims) [
    | none ↦ err (internal_error "Failed to encode id_token")
    | some token ↦ ok token
  ]

  unfoldable pub oidc_claims :
      Text → ℕ → ℕ → Text → List Text → Option ℕ → Option ℕ → OidcAccessClaims
  oidc_claims jti now user_id client_id scope session_version session_exp = record {
    iss = origin;
    sub = show_uuid user_id;
    aud = client_id;
    exp = min (now + oidc_access_token_lifetime) (unwrap_or session_exp max_i64);
    iat = now;
    jti = jti;
    scope = join_scope scope;
    typ = codes "oidc_access";
    session_version = session_version;
  }

  -- `generate_oidc_access_token`, given the fresh `jti`
  unfoldable pub generate_oidc_access_token :
      Text → ℕ → ℕ → Text → List Text → Option ℕ → Option ℕ → Result Text AppError
  generate_oidc_access_token jti now user_id client_id scope session_version session_exp =
      elim (encode_access
        (oidc_claims jti now user_id client_id scope session_version session_exp)) [
          | none ↦ err (internal_error "Failed to encode access token")
          | some token ↦ ok token
        ]

  -- `verify_oidc_access_token`
  unfoldable pub verify_oidc_access_token : Text → ℕ → Result OidcAccessClaims AppError
  verify_oidc_access_token token now = elim (decode_access now token) [
    | none ↦ err authentication_required
    | some claims ↦
        if not (same claims.typ (codes "oidc_access")) || leb claims.exp now
        then err authentication_required
        else ok claims
  ]

  -- the claims of the ID token that `mint_token_pair` signs
  unfoldable pub minted_claims : Text → ℕ → Subject → Origin → IdTokenClaims
  minted_claims client_id now subject o =
      let claims = build_id_token_claims client_id subject o.nonce o.auth_time now in
      record claims {
        session_version = o.session_version;
        exp = min claims.exp (unwrap_or o.session_exp max_i64);
      }

  -- `mint_token_pair`
  unfoldable pub mint_token_pair :
      Text → ℕ → Application → Subject → Origin → Result TokenResponse AppError
  mint_token_pair jti now app subject o = elim app.oidc_client_id [
    | none ↦ err (internal_error "OIDC app has no client_id")
    | some client_id ↦
        let claims = minted_claims client_id now subject o in
        encode_id_token claims >>= (λ id_token.
          generate_oidc_access_token jti now subject.user.id client_id subject.scope
            o.session_version o.session_exp
          >>= (λ access_token. ok (record {
            access_token = access_token;
            id_token = id_token;
            token_type = codes "Bearer";
            expires_in = claims.exp - now;
            scope = join_scope subject.scope;
          })))
  ]
