-- ===== src/Oauth/UserInfo.antt =====
-- `userinfo` of server/src/handlers/oauth.rs.
use authere.Base.{ℕ, not, ◌||◌, Option, none, some, List, drop, if◌then◌else◌}
use authere.Base.Text.{Text, codes, starts_with}
use authere.Base.Errors.{ok, err, is_ok}
use authere.Http.{Headers, get_header}
use authere.Application.Access.{check_access_resolved}
use authere.User.{User}
use authere.Session.{verify_user_session}
use authere.Session.Tokens.{get_roles}
use authere.Oidc.Token.{OidcAccessClaims, parse_scope, scope_contains, verify_oidc_access_token}
use authere.Oauth.{Crates, Db, get_user, get_by_oidc_client_id}
use authere.Oauth.Exchange.{authorization}

-- the JSON body
pub record UserInfo : Type 0 where
  pub sub : Text
  pub name : Option Text
  pub preferred_username : Option Text
  pub updated_at : Option ℕ
  pub email : Option Text
  pub roles : Option (List Text)

abbrev bearer_prefix : Text
bearer_prefix = codes "Bearer "

-- `strip_prefix("Bearer ")`
unfoldable pub strip_bearer : Text → Option Text
strip_bearer v = if starts_with v bearer_prefix then some (drop 7 v) else none

module _ (crates : Crates) where
  open crates use {sessions, signer, to_str}

  unfoldable pub bearer : Headers → Option Text
  bearer headers = elim (get_header authorization headers) [
    | none ↦ none
    | some value ↦ elim (to_str value) [ none ↦ none | some v ↦ strip_bearer v ]
  ]

  -- the body, by the scope of the token
  unfoldable pub info_for : User → List Text → List Text → UserInfo
  info_for user roles scope =
      let profile = scope_contains scope (codes "profile") in
      record {
        sub = signer.show_uuid user.id;
        name = if profile then some user.name else none;
        preferred_username = if profile then some user.username else none;
        updated_at = if profile then some user.updated_at else none;
        email = if scope_contains scope (codes "email") then user.email else none;
        roles = if scope_contains scope (codes "roles") then some roles else none;
      }

  -- the checks after the token has been read; `none` is the challenge for another token
  unfoldable pub info_of_claims : OidcAccessClaims → Db → Option UserInfo
  info_of_claims claims db = elim (sessions.parse_uuid claims.sub) [
    | none ↦ none
    | some user_id ↦
        if not (is_ok (verify_user_session user_id claims.iat claims.session_version db.sessions))
        then none
        else elim (get_by_oidc_client_id claims.aud db.applications) [
          | none ↦ none
          | some app ↦ if not app.enabled then none else elim (get_user user_id db) [
            | none ↦ none
            | some user ↦
                let roles = get_roles user.id db.sessions in
                if not user.active
                  || not (check_access_resolved sessions.parse_uuid db.sessions.tables app roles)
                then none
                else some (info_for user roles (parse_scope claims.scope))
          ]
        ]
  ]

  -- `userinfo`; `none` is `unauthorized_with_bearer_challenge`
  unfoldable pub userinfo : Headers → ℕ → Db → Option UserInfo
  userinfo headers now db = elim (bearer headers) [
    | none ↦ none
    | some token ↦ elim (verify_oidc_access_token signer token now) [
      | err _ ↦ none
      | ok claims ↦ info_of_claims claims db
    ]
  ]
