-- ===== src/Forward/Allowed.antt =====
-- Which requests `verify_auth` of server/src/handlers/auth.rs lets pass.
use authere.Base.{ℕ, ◌≡◌, inl, inr, true, some, arith, Bool-cases, Option-cases, ◌==◌}
use authere.Base.Text.{Text}
use authere.Base.Errors.{
  AppError, db_error, unique_error, not_found, input_error, authentication_required, forbidden,
  internal_error, ok, Result-cases,
}
use authere.Http.{Headers}
use authere.User.{User}
use authere.Application.{Application}
use authere.Application.Policy.{find_matching}
use authere.Application.Access.{check_access_resolved}
use authere.Application.Outcome.{find_matching_sound}
use authere.Session.Tokens.{get_roles}
use authere.State.{Db, get_user}
use authere.Forward.Handoff.{ForwardSession, verify_session}
use authere.Forward.Target.{Target, ensure_protected_origin, from_proxy}
use authere.Forward.Verify.{
  Proxy, AuthHeaders, allowed, build_auth_headers, build_forward_auth_redirect, credential,
  verdict_of_error, verify_access, verify_credential, find_policy, verify_auth,
}

module _ (proxy : Proxy) where
  -- A user who may pass to an application.
  pub record IsPassing (app : Application) (claims : ForwardSession) (db : Db)
      (headers : AuthHeaders) : Type 0 where
    pub user : User
    pub found : get_user claims.sub db ≡ some user
    pub access :
        check_access_resolved proxy.handoffs.parse_uuid db.sessions.tables app
          (get_roles user.id db.sessions)
        ≡ true
    pub same_app : claims.application_id ≡ app.id
    pub told : headers ≡ build_auth_headers proxy user (get_roles user.id db.sessions) user.email

  redirect_is_not_allowed :
      (headers : Headers) (h : AuthHeaders)
      → build_forward_auth_redirect proxy headers ≡ allowed h
      → ⊥
  unfolding build_forward_auth_redirect
  redirect_is_not_allowed headers h e =
      elim (Result-cases (from_proxy proxy.urls proxy.to_str headers)) [
        | inl (target, k) ↦ ground arith
        | inr (x, k) ↦ ground arith
      ]

  error_is_not_allowed :
      (headers : Headers) (e : AppError) (h : AuthHeaders)
      → verdict_of_error proxy headers e ≡ allowed h
      → ⊥
  unfolding verdict_of_error
  error_is_not_allowed headers authentication_required h k = redirect_is_not_allowed headers h k
  error_is_not_allowed headers (db_error _) h k = cc
  error_is_not_allowed headers (unique_error _) h k = cc
  error_is_not_allowed headers not_found h k = cc
  error_is_not_allowed headers (input_error _) h k = cc
  error_is_not_allowed headers forbidden h k = cc
  error_is_not_allowed headers (internal_error _) h k = cc

  verify_access-IsPassing :
      (headers : Headers) (app : Application) (claims : ForwardSession) (db : Db) (h : AuthHeaders)
      → verify_access proxy headers app claims db ≡ allowed h
      → IsPassing app claims db h
  unfolding verify_access
  verify_access-IsPassing headers app claims db h e = elim (Option-cases (get_user claims.sub db)) [
    | inl missing ↦ ground arith
    | inr (user, found) ↦ elim (Bool-cases (claims.application_id == app.id)) [
      | inr other ↦
          elim (Bool-cases (
            check_access_resolved proxy.handoffs.parse_uuid db.sessions.tables app
              (get_roles user.id db.sessions))) [
                | inl access ↦ absurd (redirect_is_not_allowed headers h (ground arith))
                | inr denied_access ↦ ground arith
              ]
      | inl own ↦ record {
        user = user;
        found = found;
        access = ground arith;
        same_app = ground arith;
        told = ground arith;
      }
    ]
  ]

  -- What stands behind a request that passes.
  pub record IsAllowed (headers : Headers) (now : ℕ) (db : Db) (h : AuthHeaders) : Type 0 where
    pub target : Target
    pub app : Application
    pub token : Text
    pub claims : ForwardSession
    pub asked : from_proxy proxy.urls proxy.to_str headers ≡ ok target
    pub protected : ensure_protected_origin proxy.urls proxy.origin target ≡ ok tt
    pub policy :
        find_matching proxy.regex target.host target.policy_path db.applications ≡ ok (some app)
    pub enabled : app.enabled ≡ true
    pub presented : credential proxy headers ≡ some token
    pub session : verify_session proxy.handoffs token target.url.origin now db.sessions ≡ ok claims
    pub passing : IsPassing app claims db h

  pub find_policy_sound :
      (target : Target) (db : Db) (app : Application)
      → find_policy proxy target db ≡ ok app
      → find_matching proxy.regex target.host target.policy_path db.applications ≡ ok (some app)
  unfolding find_policy
  find_policy_sound target db app h =
      elim (Result-cases
        (find_matching proxy.regex target.host target.policy_path db.applications)) [
          | inr (e, k) ↦ ground arith
          | inl (found, k) ↦ elim (Option-cases found) [
            | inl nothing ↦ ground arith
            | inr (other, there) ↦ ground arith
          ]
        ]

  -- A request passes to the upstream only on a target that is not the server's own origin and has an
  -- enabled policy, the one that `find_matching` chooses, with a session for that origin and that application which is
  -- valid at that time, of a user who has access by the present roles; and the identity that the
  -- upstream is told is that of this user.
  pub verify_auth-IsAllowed :
      (headers : Headers) (now : ℕ) (db : Db) (h : AuthHeaders)
      → verify_auth proxy headers now db ≡ allowed h
      → IsAllowed headers now db h
  unfolding verify_auth verify_credential
  verify_auth-IsAllowed headers now db h e =
      elim (Result-cases (from_proxy proxy.urls proxy.to_str headers)) [
        | inr (x, bad) ↦ ground arith
        | inl (target, asked) ↦
            elim (Result-cases (ensure_protected_origin proxy.urls proxy.origin target)) [
              | inr (x, own) ↦ ground arith
              | inl (u, foreign) ↦ elim (Result-cases (find_policy proxy target db)) [
                | inr (x, nothing) ↦ ground arith
                | inl (app, policy) ↦
                    let (enabled, _, _, _) =
                      find_matching_sound proxy.regex target.host target.policy_path db.applications
                        app (find_policy_sound target db app policy) in
                    elim (Option-cases (credential proxy headers)) [
                      | inl anonymous ↦ absurd (redirect_is_not_allowed headers h (ground arith))
                      | inr (token, presented) ↦
                          elim (Result-cases (
                            verify_session proxy.handoffs token target.url.origin now
                              db.sessions)) [
                                | inr (x, invalid) ↦
                                    absurd (error_is_not_allowed headers x h (ground arith))
                                | inl (claims, session) ↦ record {
                                  target = target;
                                  app = app;
                                  token = token;
                                  claims = claims;
                                  asked = asked;
                                  protected = foreign;
                                  policy = find_policy_sound target db app policy;
                                  enabled = enabled;
                                  presented = presented;
                                  session = session;
                                  passing =
                                      verify_access-IsPassing headers app claims db h
                                        (ground arith);
                                }
                              ]
                    ]
              ]
            ]
      ]
