-- ===== src/Oauth/Disclosed.antt =====
-- What `userinfo` of server/src/handlers/oauth.rs discloses, and to whom.
use authere.Base.{
  Bool-cases, ◌⊎◌, ℕ, ◌≡◌, refl, none, some, List, arith, Option-cases, true, false, inl, inr,
}
use authere.Base.Text.{Text, codes}
use authere.Base.Errors.{ok, Result-cases}
use authere.Http.{Headers}
use authere.User.{User}
use authere.Application.{Application}
use authere.Application.Access.{check_access_resolved}
use authere.Session.Verified.{IsCurrent, verify_user_session_iff}
use authere.Session.Tokens.{get_roles}
use authere.Oidc.Token.{OidcAccessClaims, parse_scope, scope_contains, verify_oidc_access_token}
use authere.Oauth.{Crates, Db, get_user, get_by_oidc_client_id}
use authere.Oauth.Issued.{accepted-of_is_ok}
use authere.Oauth.UserInfo.{UserInfo, bearer, info_for, info_of_claims, userinfo}

module _ (crates : Crates) where
  -- The standing of a token's user and client.
  pub record IsStanding (claims : OidcAccessClaims) (db : Db) (user : User) : Type 0 where
    pub user_id : ℕ
    pub app : Application
    pub subject : crates.sessions.parse_uuid claims.sub ≡ some user_id
    pub current : IsCurrent user_id claims.session_version claims.iat db.sessions
    pub client : get_by_oidc_client_id claims.aud db.applications ≡ some app
    pub enabled : app.enabled ≡ true
    pub found : get_user user_id db ≡ some user
    pub active : user.active ≡ true
    pub access :
        check_access_resolved crates.sessions.parse_uuid db.sessions.tables app
          (get_roles user.id db.sessions)
        ≡ true

  -- What a body says of a user, by the scope.
  pub record IsWithin (scope : List Text) (user : User) (roles : List Text) (info : UserInfo)
      : Type 0 where
    pub sub : info.sub ≡ crates.signer.show_uuid user.id
    pub profile :
        (scope_contains scope (codes "profile") ≡ true)
          × (info.name ≡ some user.name)
          × (info.preferred_username ≡ some user.username)
          × (info.updated_at ≡ some user.updated_at)
        ⊎ (scope_contains scope (codes "profile") ≡ false)
          × (info.name ≡ none)
          × (info.preferred_username ≡ none)
          × (info.updated_at ≡ none)
    pub email :
        (scope_contains scope (codes "email") ≡ true) × (info.email ≡ user.email)
        ⊎ (scope_contains scope (codes "email") ≡ false) × (info.email ≡ none)
    pub with_roles :
        (scope_contains scope (codes "roles") ≡ true) × (info.roles ≡ some roles)
        ⊎ (scope_contains scope (codes "roles") ≡ false) × (info.roles ≡ none)

  info_for-IsWithin :
      (user : User) (roles scope : List Text)
      → IsWithin scope user roles (info_for crates user roles scope)
  unfolding info_for
  info_for-IsWithin user roles scope = record {
    sub = refl;
    profile = elim (Bool-cases (scope_contains scope (codes "profile"))) [
      | inl h ↦ inl (h, ground arith, ground arith, ground arith)
      | inr h ↦ inr (h, ground arith, ground arith, ground arith)
    ];
    email = elim (Bool-cases (scope_contains scope (codes "email"))) [
      | inl h ↦ inl (h, ground arith)
      | inr h ↦ inr (h, ground arith)
    ];
    with_roles = elim (Bool-cases (scope_contains scope (codes "roles"))) [
      | inl h ↦ inl (h, ground arith)
      | inr h ↦ inr (h, ground arith)
    ];
  }

  info_of_claims-IsStanding :
      (claims : OidcAccessClaims) (db : Db) (info : UserInfo)
      → info_of_claims crates claims db ≡ some info
      → (user : User) × IsStanding claims db user
        × (info ≡ info_for crates user (get_roles user.id db.sessions) (parse_scope claims.scope))
  unfolding info_of_claims
  info_of_claims-IsStanding claims db info h =
      elim (Option-cases (crates.sessions.parse_uuid claims.sub)) [
        | inl bad ↦ ground arith
        | inr (user_id, subject) ↦
            elim (Option-cases (get_by_oidc_client_id claims.aud db.applications)) [
              | inl missing ↦ ground arith
              | inr (app, client) ↦ elim (Option-cases (get_user user_id db)) [
                | inl missing ↦ ground arith
                | inr (user, found) ↦ (
                  user,
                  record {
                    user_id = user_id;
                    app = app;
                    subject = subject;
                    current =
                        (verify_user_session_iff user_id claims.iat claims.session_version
                            db.sessions).0
                          (accepted-of_is_ok _ (ground arith));
                    client = client;
                    enabled = ground arith;
                    found = found;
                    active = ground arith;
                    access = ground arith;
                  },
                  ground arith,
                )
              ]
            ]
      ]

  -- User information is given only for a bearer token that is valid as an access token of OpenID
  -- Connect, whose session is valid, whose client is enabled and whose user is active and has access
  -- at that time; and of that user only what the scope of the token covers.
  pub userinfo_discloses :
      (headers : Headers) (now : ℕ) (db : Db) (info : UserInfo)
      → userinfo crates headers now db ≡ some info
      → (token : Text) × (claims : OidcAccessClaims) × (user : User) × (bearer crates headers
          ≡ some token)
        × (verify_oidc_access_token crates.signer token now ≡ ok claims)
        × IsStanding claims db user
        × IsWithin (parse_scope claims.scope) user (get_roles user.id db.sessions) info
  unfolding userinfo
  userinfo_discloses headers now db info h = elim (Option-cases (bearer crates headers)) [
    | inl missing ↦ ground arith
    | inr (token, sent) ↦ elim (Result-cases (verify_oidc_access_token crates.signer token now)) [
      | inr (e, bad) ↦ ground arith
      | inl (claims, good) ↦
          let (user, standing, e) = info_of_claims-IsStanding claims db info (ground arith) in
          (token, claims, user, sent, good, standing, rw e (info_for-IsWithin user _ _))
    ]
  ]
