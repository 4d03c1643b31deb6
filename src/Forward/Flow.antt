-- ===== src/Forward/Flow.antt =====
-- server/src/handlers/auth.rs: the login of a protected origin: `forward_auth_start`,
-- `forward_redirect`, `forward_auth_callback` and `lookup_forward_app`.
use authere.Base.{
  ℕ, ◌-◌, Bool, not, Option, none, some, [], ◌∷◌, ◌++◌, ◌==◌, if◌then◌else◌, unwrap_or, reverse,
}
use authere.Base.Text.{Text, codes}
use authere.Base.Errors.{
  AppError, authentication_required, input_error, forbidden, not_found, Result, ok, err, ◌>>=◌,
  ◌>>◌,
}
use authere.Http.{Headers, extract_cookie}
use authere.Application.{Application}
use authere.Application.Policy.{find_matching}
use authere.Application.Access.{check_access_resolved}
use authere.Session
use authere.Session.{Claims, TokenPair, Store}
use authere.Session.Tokens.{Fresh, get_roles}
use authere.State.{Db, get_user}
use authere.Oauth.{resolve_browser_session}
use authere.Forward.Handoff.{ForwardSession, valid_state, issue_handoff, redeem_handoff}
use authere.Forward.Target.{Target, parse, ensure_protected_origin, from_callback}
use authere.Forward.Verify.{Proxy, find_policy}

abbrev state_cookie_name : Text
state_cookie_name = codes "__Host-authere_forward_state"

unfoldable drop_slashes : Text → Text
drop_slashes [] = []
drop_slashes (c ∷ s) = let rest = drop_slashes s in if c == b'/' then rest else c ∷ s

-- `trim_end_matches('/')`
unfoldable trim_slashes : Text → Text
trim_slashes s = reverse (drop_slashes (reverse s))

-- a redirect with a cookie that binds the browser to the nonce
record Start : Type 0 where
  pub location : Text
  pub nonce : Text

-- The responses of `forward_redirect`: the login, the page that says that the user has no access,
-- the callback.
pub data Next : Type 0 where
  to_login : Text → Next
  no_access : Target → Application → Next
  to_callback : Text → Next

-- What `forward_redirect` leaves: the response, the pair whose cookies are set, the sessions.
pub record Passed : Type 0 where
  pub result : Result Next AppError
  pub renewed : Option TokenPair
  pub store : Store

abbrev pub passed : Result Next AppError → Option TokenPair → Store → Passed
passed result renewed store = record { result = result; renewed = renewed; store = store }

-- the redirect at the end of a login, with the session's cookie and its lifetime
pub record Landing : Type 0 where
  pub location : Text
  pub session_token : Text
  pub lifetime : ℕ

module _ (proxy : Proxy) where
  open proxy use {origin, urls, regex, handoffs, to_str, is_header_value}

  unfoldable pub continue_path : Target → Text → Text
  continue_path target state =
      codes "/api/auth/forward-redirect?redirect_uri="
      ++ urls.urlencode target.url.text
      ++ codes "&state="
      ++ state

  -- a target that is not the server's own origin, and its policy
  unfoldable protected_policy : Target → Db → Result Application AppError
  protected_policy target db =
      ensure_protected_origin urls origin target >> find_policy proxy target db

  -- `forward_auth_start`, given the fresh nonce
  unfoldable forward_auth_start : Headers → Option Text → Bool → Text → Db → Result Start AppError
  forward_auth_start headers redirect_uri login nonce db =
      from_callback urls to_str headers (unwrap_or redirect_uri (codes "/")) >>= (λ target.
        protected_policy target db >>= (λ app. ok (record {
          location =
              if login
              then trim_slashes origin
                ++ codes "/login?redirect_uri="
                ++ urls.urlencode (continue_path target nonce)
              else trim_slashes origin ++ continue_path target nonce;
          nonce = nonce;
        })))

  -- the callback that a handoff is sent to
  unfoldable pub callback_url : Target → Text → Text
  callback_url target handoff =
      target.url.origin ++ codes "/.authere/callback?token=" ++ urls.urlencode handoff

  -- the handoff of a user who has access
  unfoldable pub hand_off :
      Text → ℕ → Text → Target → Application → Claims → Store → Result Next AppError × Store
  hand_off jti now state target app claims store =
      let (issued, after) =
        issue_handoff handoffs jti now claims app.id target.url.origin target.url.local state
          store in
      (issued >>= (λ token. ok (to_callback (callback_url target token))), after)

  -- the page for a user who has no access; the target must fit into headers
  unfoldable pub refuse_access : Target → Application → Result Next AppError
  refuse_access target app =
      if not (is_header_value target.host)
      then err (input_error ("Invalid target host" ∷ []))
      else if not (is_header_value target.url.local)
      then err (input_error ("Invalid target path" ∷ []))
      else ok (no_access target app)

  -- `forward_redirect` for a session
  unfoldable pub pass_session :
      Text → ℕ → Text → Target → Application → Claims → Db → Result Next AppError × Store
  pass_session jti now state target app claims db = elim (handoffs.parse_uuid claims.sub) [
    | none ↦ (err authentication_required, db.sessions)
    | some user_id ↦ elim (get_user user_id db) [
      | none ↦ (err authentication_required, db.sessions)
      | some user ↦
          if not (
            check_access_resolved handoffs.parse_uuid db.sessions.tables app
              (get_roles user.id db.sessions))
          then (refuse_access target app, db.sessions)
          else hand_off jti now state target app claims db.sessions
    ]
  ]

  -- an error drops the cookies of the renewal
  unfoldable pub keep_renewed : Option TokenPair → Result Next AppError × Store → Passed
  keep_renewed renewed (err e, store) = passed (err e) none store
  keep_renewed renewed (ok next, store) = passed (ok next) renewed store

  -- the response to the lookup of a session
  unfoldable pub pass_resolved :
      Text
      → ℕ
      → Text
      → Target
      → Application
      → Db
      → Option TokenPair
      → Result (Option Claims) AppError
      → Passed
  pass_resolved jti now state target app db renewed (err e) = passed (err e) none db.sessions
  pass_resolved jti now state target app db renewed (ok none) =
      passed
        (ok
          (to_login (codes "/login?redirect_uri=" ++ urls.urlencode (continue_path target state))))
        none db.sessions
  pass_resolved jti now state target app db renewed (ok (some claims)) =
      keep_renewed renewed (pass_session jti now state target app claims db)

  -- the checks of `forward_redirect` on its parameters
  unfoldable pub read_redirect : Text → Text → Db → Result (Target × Application) AppError
  read_redirect redirect_uri state db = parse urls redirect_uri >>= (λ target.
      ensure_protected_origin urls origin target
      >> (if not (valid_state state)
          then err (input_error ("Invalid forward login state" ∷ []))
          else find_policy proxy target db >>= (λ app. ok (target, app))))

  -- `forward_redirect`
  unfoldable pub forward_redirect :
      Session.Crates → Fresh → Text → Headers → Text → Text → ℕ → Db → Passed
  forward_redirect crates fresh jti headers redirect_uri state now db =
      elim (read_redirect redirect_uri state db) [
        | err e ↦ passed (err e) none db.sessions
        | ok (target, app) ↦
            let r = resolve_browser_session crates to_str fresh headers now db.sessions in
            pass_resolved jti now state target app (record db { sessions = r.store }) r.renewed
              r.result
      ]

  -- `forward_auth_callback` after the redemption
  unfoldable pub land : Headers → ℕ → Text × ForwardSession × Text → Db → Result Landing AppError
  land headers now redeemed db = from_callback urls to_str headers redeemed.2 >>= (λ target.
      find_policy proxy target db >>= (λ app.
        if not (redeemed.1.application_id == app.id)
        then err forbidden
        else elim (get_user redeemed.1.sub db) [
          | none ↦ err authentication_required
          | some user ↦
              if not (
                check_access_resolved handoffs.parse_uuid db.sessions.tables app
                  (get_roles user.id db.sessions))
              then err forbidden
              else ok (record {
                location = redeemed.2;
                session_token = redeemed.0;
                lifetime = redeemed.1.exp - now;
              })
        ]))

  -- the checks of `forward_auth_callback`: the origin and the nonce of the browser
  unfoldable pub read_callback : Headers → Result (Target × Text) AppError
  read_callback headers = from_callback urls to_str headers (codes "/") >>= (λ target.
      ensure_protected_origin urls origin target
      >> elim (extract_cookie to_str headers state_cookie_name) [
        | none ↦ err authentication_required
        | some nonce ↦ ok (target, nonce)
      ])

  -- `forward_auth_callback`
  unfoldable pub forward_auth_callback : Headers → Text → ℕ → Db → Result Landing AppError × Db
  forward_auth_callback headers token now db = elim (read_callback headers) [
    | err e ↦ (err e, db)
    | ok (target, nonce) ↦
        let (redeemed, store) =
          redeem_handoff handoffs token target.url.origin nonce now db.sessions in
        let after = record db { sessions = store } in
        elim redeemed [ err e ↦ (err e, after) | ok done ↦ (land headers now done after, after) ]
  ]

  -- `lookup_forward_app`
  unfoldable lookup_forward_app : Text → Db → Result Text AppError
  lookup_forward_app redirect_uri db = parse urls redirect_uri >>= (λ target.
      ensure_protected_origin urls origin target
      >> elim (find_matching regex target.host target.policy_path db.applications) [
        | err e ↦ err e
        | ok none ↦ err not_found
        | ok (some app) ↦ ok app.name
      ])
