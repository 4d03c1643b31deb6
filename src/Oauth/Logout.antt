-- ===== src/Oauth/Logout.antt =====
-- `end_session` and `end_session_post` of server/src/handlers/oauth.rs.
use authere.Base.{
  ℕ, Bool, true, false, not, ◌&&◌, Option, none, some, List, ◌==◌, leb, ltb, if◌then◌else◌, is_some,
  unwrap_or,
}
use authere.Base.Text.{Text, codes, same}
use authere.Base.Errors.{AppError, Result, ok, err, is_ok}
use authere.Http.{Headers, extract_cookie, auth_cookie_name, get_header}
use authere.Application.{Application}
use authere.Application.Access.{validate_post_logout_redirect_uri}
use authere.Session.{Claims, TokenPair, verify_user_session, revoke_all_user_tokens}
use authere.Session.Tokens.{Fresh, verify_access_token}
use authere.Oidc.Token.{IdTokenClaims}
use authere.Oauth.{
  OAuthError, invalid_request, invalid_client, server_error, token_endpoint_status, Crates, Db,
  get_by_oidc_client_id, given, append_query, with_state, resolve_browser_session,
  if_unauthenticated,
}
use authere.Oauth.Exchange.{or_else, is_other}
use authere.Oauth.Html.{confirmation_inputs}

pub record EndSessionQuery : Type 0 where
  pub id_token_hint : Option Text
  pub client_id : Option Text
  pub post_logout_redirect_uri : Option Text
  pub state : Option Text

-- The responses: an error, 403, the form that asks for confirmation (its fields), and the two ends
-- of a logout, which clear the cookies: a redirect, and a page that may name the application.
pub data LogoutReply : Type 0 where
  failed : OAuthError → LogoutReply
  refused : LogoutReply
  confirm : Text → LogoutReply
  sent_to : Text → LogoutReply
  signed_out : Option Text → LogoutReply

pub record LogoutOutcome : Type 0 where
  pub reply : LogoutReply
  pub renewed : Option TokenPair
  pub db : Db

abbrev pub done : LogoutReply → Option TokenPair → Db → LogoutOutcome
done reply renewed db = record { reply = reply; renewed = renewed; db = db }

-- `response.status()`
unfoldable pub reply_status : LogoutReply → ℕ
reply_status (failed e) = token_endpoint_status e
reply_status refused = 403
reply_status (confirm _) = 200
reply_status (sent_to _) = 302
reply_status (signed_out _) = 200

-- whether the response has a `Set-Cookie`
unfoldable pub clears_cookies : LogoutReply → Bool
clears_cookies (sent_to _) = true
clears_cookies (signed_out _) = true
clears_cookies _ = false

-- the hint, the client's name and the application of a request
pub record Party : Type 0 where
  pub hint : Option IdTokenClaims
  pub client_id : Option Text
  pub app : Option Application

module _ (crates : Crates) where
  open crates use {sessions, signer, to_str, urlencode, decode_hint, is_header_value, ascii_origin}

  unfoldable pub read_hint : Option Text → Result (Option IdTokenClaims) OAuthError
  read_hint none = ok none
  read_hint (some hint) = elim (decode_hint hint) [
    | none ↦ err (invalid_request (codes "invalid id_token_hint"))
    | some claims ↦ ok (some claims)
  ]

  unfoldable pub hinted_client : Option IdTokenClaims → Option Text
  hinted_client none = none
  hinted_client (some hint) = some hint.aud

  unfoldable pub mismatches : Option Text → Option IdTokenClaims → Bool
  mismatches client_id none = false
  mismatches client_id (some hint) = is_other hint.aud client_id

  unfoldable pub find_party :
      Option IdTokenClaims → Option Text → List Application → Result Party OAuthError
  find_party hint client_id apps = elim (given client_id) [
    | none ↦ ok (record { hint = hint; client_id = client_id; app = none })
    | some id ↦ elim (get_by_oidc_client_id id apps) [
      | none ↦ err invalid_client
      | some app ↦
          if app.enabled
          then ok (record { hint = hint; client_id = client_id; app = some app })
          else err invalid_client
    ]
  ]

  -- `end_session_response` up to the application
  unfoldable pub read_party : EndSessionQuery → List Application → Result Party OAuthError
  read_party q apps = elim (read_hint q.id_token_hint) [
    | err e ↦ err e
    | ok hint ↦
        if mismatches q.client_id hint
        then err (invalid_request (codes "client_id does not match id_token_hint"))
        else find_party hint (or_else q.client_id (hinted_client hint)) apps
  ]

  -- `matching_hint`
  unfoldable pub is_matching : Option IdTokenClaims → Claims → ℕ → Db → Bool
  is_matching none session uid db = false
  is_matching (some hint) session uid db =
      same hint.sub session.sub
      && hint.auth_time == unwrap_or session.auth_time session.iat
      && is_ok (verify_user_session uid hint.iat hint.session_version db.sessions)

  unfoldable pub send_to : Text → Option Text → LogoutReply
  send_to uri state =
      let location = append_query urlencode uri (with_state state) in
      if is_header_value location
      then sent_to location
      else failed (invalid_request (codes "invalid post_logout_redirect_uri"))

  -- the response after the logout
  unfoldable pub finish : EndSessionQuery → Option Application → LogoutReply
  finish q none = signed_out none
  finish q (some app) = elim q.post_logout_redirect_uri [
    | none ↦ signed_out (some app.name)
    | some uri ↦
        if validate_post_logout_redirect_uri app uri
        then send_to uri q.state
        else signed_out (some app.name)
  ]

  abbrev pub revoke : ℕ → ℕ → Db → Db
  revoke uid now db = record db { sessions = revoke_all_user_tokens uid now db.sessions }

  -- the part of `end_session_response` for a session that has been found
  unfoldable pub end_found :
      EndSessionQuery → Bool → Bool → Party → ℕ → Claims → Db → LogoutReply × Db
  end_found q confirmed require_matching party now session db =
      elim (sessions.parse_uuid session.sub) [
        | none ↦ (failed server_error, db)
        | some uid ↦
            let matching = is_matching party.hint session uid db in
            if require_matching && not matching
            then (refused, db)
            else if not confirmed && not matching
            then (
              confirm (confirmation_inputs party.client_id q.post_logout_redirect_uri q.state),
              db,
            )
            else (finish q party.app, revoke uid now db)
      ]

  -- the response to the session of the access cookie
  unfoldable pub reply_presented :
      EndSessionQuery → Bool → Party → ℕ → Db → Result Claims AppError → LogoutOutcome
  reply_presented q confirmed party now db (err e) =
      done (if_unauthenticated e (λ _. failed server_error) refused) none db
  reply_presented q confirmed party now db (ok session) =
      let (reply, after) = end_found q confirmed true party now session db in done reply none after

  -- the session that a cross-origin request must present
  unfoldable pub end_required : EndSessionQuery → Bool → Party → Headers → ℕ → Db → LogoutOutcome
  unfolding reply_presented
  end_required q confirmed party headers now db =
      if not (is_some party.hint)
      then done refused none db
      else elim (extract_cookie to_str headers auth_cookie_name) [
        | none ↦ done refused none db
        | some access ↦
            reply_presented q confirmed party now db
              (verify_access_token sessions access now db.sessions)
      ]

  -- the response to what `resolve_browser_session` has found, given the tables that it leaves
  unfoldable pub reply_resolved :
      EndSessionQuery
      → Bool
      → Party
      → ℕ
      → Db
      → Option TokenPair
      → Result (Option Claims) AppError
      → LogoutOutcome
  reply_resolved q confirmed party now db renewed (err _) = done (failed server_error) renewed db
  reply_resolved q confirmed party now db renewed (ok none) = done (finish q party.app) renewed db
  reply_resolved q confirmed party now db renewed (ok (some session)) =
      let (reply, final) = end_found q confirmed false party now session db in
      done reply renewed final

  -- the session of the browser, whose pair may be renewed
  unfoldable pub end_resolved :
      EndSessionQuery → Bool → Party → Fresh → Headers → ℕ → Db → LogoutOutcome
  unfolding reply_resolved
  end_resolved q confirmed party fresh headers now db =
      let r = resolve_browser_session sessions to_str fresh headers now db.sessions in
      reply_resolved q confirmed party now (record db { sessions = r.store }) r.renewed r.result

  -- `end_session_response`
  unfoldable pub end_session_response :
      EndSessionQuery → Bool → Bool → Fresh → Headers → ℕ → Db → LogoutOutcome
  end_session_response q confirmed require_matching fresh headers now db =
      elim (read_party q db.applications) [
        | err e ↦ done (failed e) none db
        | ok party ↦
            if require_matching
            then end_required q confirmed party headers now db
            else end_resolved q confirmed party fresh headers now db
      ]

  unfoldable pub is_client_error : LogoutReply → Bool
  is_client_error reply = leb 400 (reply_status reply) && ltb (reply_status reply) 500

  -- `end_session_impl`
  unfoldable pub end_session_impl :
      EndSessionQuery → Bool → Bool → Fresh → Headers → ℕ → Db → LogoutOutcome
  end_session_impl q confirmed require_matching fresh headers now db =
      let out = end_session_response q confirmed require_matching fresh headers now db in
      if require_matching && is_client_error out.reply
      then done refused none out.db
      else if clears_cookies out.reply
      then done out.reply none out.db
      else out

  -- `end_session`
  unfoldable pub end_session : EndSessionQuery → Fresh → Headers → ℕ → Db → LogoutOutcome
  end_session q fresh headers now db = end_session_impl q false false fresh headers now db

  -- `confirmed` of `end_session_post`: the request comes from the server's own origin
  unfoldable pub is_own_origin : Headers → Bool
  is_own_origin headers = elim (get_header (codes "origin") headers) [
    | none ↦ false
    | some value ↦ elim (to_str value) [
      | none ↦ false
      | some actual ↦ elim (ascii_origin signer.origin) [
        | none ↦ false
        | some expected ↦ same actual expected
      ]
    ]
  ]

  -- `end_session_post`
  unfoldable pub end_session_post : EndSessionQuery → Fresh → Headers → ℕ → Db → LogoutOutcome
  end_session_post q fresh headers now db =
      let confirmed = is_own_origin headers in
      end_session_impl q confirmed (not confirmed) fresh headers now db
