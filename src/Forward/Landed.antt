-- ===== src/Forward/Landed.antt =====
-- What `forward_redirect` hands off, and whom `forward_auth_callback` lets land
-- (server/src/handlers/auth.rs).
use authere.Base.{ℕ, ◌-◌, ◌≡◌, refl, ◌++◌, inl, inr, true, Option, none, some, arith, Option-cases}
use authere.Base.Text.{Text, codes}
use authere.Base.Errors.{AppError, Result, ok, err, Result-cases}
use authere.Http.{Headers}
use authere.User.{User}
use authere.Application.{Application}
use authere.Application.Policy.{find_matching}
use authere.Application.Access.{check_access_resolved}
use authere.Session
use authere.Session.{Claims, TokenPair, Store}
use authere.Session.Tokens.{Fresh, get_roles}
use authere.State.{Db, get_user}
use authere.Oauth.{resolve_browser_session}
use authere.Forward.Handoff.{ForwardSession, issue_handoff, redeem_handoff}
use authere.Forward.Handoff.Redeemed.{IsRedeemed, redeem_handoff-IsRedeemed}
use authere.Forward.Target.{Target, from_callback}
use authere.Forward.Verify.{Proxy, find_policy}
use authere.Forward.Allowed.{find_policy_sound}
use authere.Forward.Asked.{IsCalled, IsAskedFor, read_callback-IsCalled, read_redirect-IsAskedFor}
use authere.Forward.Flow.{
  to_callback, Landing, callback_url, hand_off, refuse_access, pass_session, keep_renewed,
  pass_resolved, read_redirect, forward_redirect, land, read_callback, forward_auth_callback,
}

module _ (proxy : Proxy) where
  -- The access of a user of the session to an application.
  pub record IsAdmitted (app : Application) (user_id : ℕ) (db : Db) : Type 0 where
    pub user : User
    pub found : get_user user_id db ≡ some user
    pub access :
        check_access_resolved proxy.handoffs.parse_uuid db.sessions.tables app
          (get_roles user.id db.sessions)
        ≡ true

  -- What stands behind a login that ends.
  pub record IsLanded (headers : Headers) (token : Text) (now : ℕ) (db after : Db)
      (landing : Landing) : Type 0 where
    pub here : Target
    pub nonce : Text
    pub claims : ForwardSession
    pub target : Target
    pub app : Application
    pub called : IsCalled proxy headers here nonce
    pub handoff :
        IsRedeemed proxy.handoffs token here.url.origin nonce now db.sessions
          (landing.session_token, claims, landing.location)
    pub redeemed :
        (redeem_handoff proxy.handoffs token here.url.origin nonce now db.sessions).0
        ≡ ok (landing.session_token, claims, landing.location)
    pub path : from_callback proxy.urls proxy.to_str headers landing.location ≡ ok target
    pub policy :
        find_matching proxy.regex target.host target.policy_path after.applications ≡ ok (some app)
    pub same_app : claims.application_id ≡ app.id
    pub admitted : IsAdmitted app claims.sub after
    pub ends : landing.lifetime ≡ claims.exp - now

  land_sound :
      (headers : Headers) (now : ℕ) (token : Text) (claims : ForwardSession) (path : Text) (db : Db)
      (landing : Landing)
      → land proxy headers now (token, claims, path) db ≡ ok landing
      → (target : Target) × (app : Application) × (from_callback proxy.urls proxy.to_str headers
            path
          ≡ ok target)
        × (find_matching proxy.regex target.host target.policy_path db.applications ≡ ok (some app))
        × (claims.application_id ≡ app.id)
        × IsAdmitted app claims.sub db
        × (landing ≡ record { location = path; session_token = token; lifetime = claims.exp - now })
  unfolding land
  land_sound headers now token claims path db landing h =
      elim (Result-cases (from_callback proxy.urls proxy.to_str headers path)) [
        | inr (e, bad) ↦ ground arith
        | inl (target, there) ↦ elim (Result-cases (find_policy proxy target db)) [
          | inr (e, nothing) ↦ ground arith
          | inl (app, policy) ↦ elim (Option-cases (get_user claims.sub db)) [
            | inl missing ↦ ground arith
            | inr (user, found) ↦ (
              target,
              app,
              there,
              find_policy_sound proxy target db app policy,
              ground arith,
              record { user = user; found = found; access = ground arith },
              ground arith,
            )
          ]
        ]
      ]

  -- A login ends with a session on the protected origin only for a handoff that is redeemed there by
  -- the browser that began it, and only if the policy of the path that it leads to is that of the
  -- application of the handoff and the user has access to it at that time.
  pub forward_auth_callback-IsLanded :
      (headers : Headers) (token : Text) (now : ℕ) (db : Db) (landing : Landing)
      → (forward_auth_callback proxy headers token now db).0 ≡ ok landing
      → IsLanded headers token now db (forward_auth_callback proxy headers token now db).1 landing
  unfolding forward_auth_callback
  forward_auth_callback-IsLanded headers token now db landing h =
      elim (Result-cases (read_callback proxy headers)) [
        | inr (e, bad) ↦ ground arith
        | inl ((here, nonce), called) ↦
            let out = redeem_handoff proxy.handoffs token here.url.origin nonce now db.sessions in
            elim (Result-cases out.0) [
              | inr (e, unredeemed) ↦ ground arith
              | inl ((session_token, claims, path), redeemed) ↦
                  let (target, app, there, policy, same_app, admitted, e) =
                    land_sound headers now session_token claims path
                      (record db { sessions = out.1 }) landing (ground arith) in
                  let left : (forward_auth_callback proxy headers token now db).1
                      ≡ record db { sessions = out.1 } =
                    ground arith in
                  rw (left, e)
                    (record {
                      here = here;
                      nonce = nonce;
                      claims = claims;
                      target = target;
                      app = app;
                      called = read_callback-IsCalled proxy headers here nonce called;
                      handoff =
                          redeem_handoff-IsRedeemed proxy.handoffs token here.url.origin nonce now
                            db.sessions (session_token, claims, path) redeemed;
                      redeemed = redeemed;
                      path = there;
                      policy = policy;
                      same_app = same_app;
                      admitted = admitted;
                      ends = refl;
                    })
            ]
      ]

  -- What stands behind a handoff that is sent.
  pub record IsHandedOff (jti : Text) (now : ℕ) (state : Text) (target : Target) (app : Application)
      (claims : Claims) (db : Db) (location : Text) : Type 0 where
    pub user_id : ℕ
    pub handoff : Text
    pub subject : proxy.handoffs.parse_uuid claims.sub ≡ some user_id
    pub admitted : IsAdmitted app user_id db
    pub issued :
        (issue_handoff proxy.handoffs jti now claims app.id target.url.origin target.url.local state
          db.sessions).0
        ≡ ok handoff
    pub sent :
        location
        ≡ target.url.origin ++ codes "/.authere/callback?token=" ++ proxy.urls.urlencode handoff

  pass_session-IsHandedOff :
      (jti : Text) (now : ℕ) (state : Text) (target : Target) (app : Application) (claims : Claims)
      (db : Db) (location : Text)
      → (pass_session proxy jti now state target app claims db).0 ≡ ok (to_callback location)
      → IsHandedOff jti now state target app claims db location
  unfolding pass_session hand_off refuse_access callback_url
  pass_session-IsHandedOff jti now state target app claims db location h =
      elim (Option-cases (proxy.handoffs.parse_uuid claims.sub)) [
        | inl bad ↦ ground arith
        | inr (user_id, subject) ↦ elim (Option-cases (get_user user_id db)) [
          | inl missing ↦ ground arith
          | inr (user, found) ↦
              elim (Result-cases
                (issue_handoff proxy.handoffs jti now claims app.id target.url.origin
                  target.url.local state db.sessions).0) [
                    | inr (e, unissued) ↦ ground arith
                    | inl (handoff, issued) ↦ record {
                      user_id = user_id;
                      handoff = handoff;
                      subject = subject;
                      admitted = record { user = user; found = found; access = ground arith };
                      issued = issued;
                      sent = ground arith;
                    }
                  ]
        ]
      ]

  pass_resolved-IsHandedOff :
      (jti : Text) (now : ℕ) (state : Text) (target : Target) (app : Application) (db : Db)
      (renewed : Option TokenPair) (result : Result (Option Claims) AppError) (location : Text)
      → (pass_resolved proxy jti now state target app db renewed result).result
        ≡ ok (to_callback location)
      → (claims : Claims) × (result ≡ ok (some claims))
        × IsHandedOff jti now state target app claims db location
  unfolding pass_resolved keep_renewed
  pass_resolved-IsHandedOff jti now state target app db renewed (err e) location h = cc
  pass_resolved-IsHandedOff jti now state target app db renewed (ok none) location h = cc
  pass_resolved-IsHandedOff jti now state target app db renewed (ok (some claims)) location h =
      elim (Result-cases (pass_session proxy jti now state target app claims db).0) [
        | inr (e, bad) ↦ ground arith
        | inl (next, good) ↦ (
          claims,
          refl,
          pass_session-IsHandedOff jti now state target app claims db location (ground arith),
        )
      ]

  -- A handoff is sent only to the origin that it was asked for, which is protected by an enabled
  -- policy, and only for the user of the browser's own session, who has access at that time.
  pub forward_redirect-IsHandedOff :
      (crates : Session.Crates) (fresh : Fresh) (jti : Text) (headers : Headers)
      (redirect_uri state : Text) (now : ℕ) (db : Db) (location : Text)
      → (forward_redirect proxy crates fresh jti headers redirect_uri state now db).result
        ≡ ok (to_callback location)
      → (target : Target) × (app : Application) × (claims : Claims) × IsAskedFor proxy redirect_uri
          state db target app
        × ((resolve_browser_session crates proxy.to_str fresh headers now db.sessions).result
            ≡ ok (some claims))
        × IsHandedOff jti now state target app claims
            (record db {
              sessions =
                  (resolve_browser_session crates proxy.to_str fresh headers now db.sessions).store;
            })
            location
  unfolding forward_redirect
  forward_redirect-IsHandedOff crates fresh jti headers redirect_uri state now db location h =
      elim (Result-cases (read_redirect proxy redirect_uri state db)) [
        | inr (e, bad) ↦ ground arith
        | inl ((target, app), read) ↦
            let r = resolve_browser_session crates proxy.to_str fresh headers now db.sessions in
            let (claims, found, handed) =
              pass_resolved-IsHandedOff jti now state target app (record db { sessions = r.store })
                r.renewed r.result location (ground arith) in
            (
              target,
              app,
              claims,
              read_redirect-IsAskedFor proxy redirect_uri state db target app read,
              found,
              handed,
            )
      ]
