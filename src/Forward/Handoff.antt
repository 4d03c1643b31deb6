-- ===== src/Forward/Handoff.antt =====
-- server/src/user/auth/forward.rs: the transfer of a login to another origin. A handoff is signed
-- and is redeemed once, by the browser that began the login. Signing and checking a signature,
-- an issuer and an audience, the crate's expiry check and the hash of a state are parameters.
pub mod Steps
pub mod Redeemed
pub mod Issued
mod Examples
use authere.Base.{
  ℕ, ◌+◌, Bool, true, false, not, ◌&&◌, ◌||◌, Option, none, some, List, [], ◌∷◌, ◌==◌, leb, ltb,
  min, if◌then◌else◌, is_some, unwrap_or, all, length,
}
use authere.Base.Text.{Text, codes, same, is_ascii_hexdigit}
use authere.Base.Rows.{find, delete_where, count_where}
use authere.Base.Errors.{
  AppError, authentication_required, input_error, internal_error, from_sqlx, Result, ok, err, ◌>>=◌,
}
use authere.Session.{Claims, HandoffRow, Store, verify_user_session}

-- `ForwardSession`
pub record ForwardSession : Type 0 where
  pub sub : ℕ
  pub application_id : ℕ
  pub iss : Text
  pub aud : Text
  pub iat : ℕ
  pub exp : ℕ
  pub session_version : Option ℕ
  pub typ : Text

-- `Handoff`
pub record Handoff : Type 0 where
  pub session : ForwardSession
  pub state_hash : Text
  pub redirect_path : Text
  pub jti : Text
  pub iss : Text
  pub aud : Text
  pub exp : ℕ
  pub typ : Text

-- The parameters. `read_handoff` and `read_session` give the claims of a token that is signed, of
-- the server's issuer and of the audience; `in_time now exp` is the crate's expiry check.
pub record Crates : Type 0 where
  pub sign_handoff : Handoff → Option Text
  pub sign_session : ForwardSession → Option Text
  pub read_handoff : Text → Text → Option Handoff
  pub read_session : Text → Text → Option ForwardSession
  pub in_time : ℕ → ℕ → Bool
  pub state_hash : Text → Text
  pub parse_uuid : Text → Option ℕ

-- `valid_state`
unfoldable pub valid_state : Text → Bool
valid_state state = length state == 64 && all is_ascii_hexdigit state

abbrev pub is_handoff : Text → ℕ → ℕ → HandoffRow → Bool
is_handoff jti user_id now row = same row.id jti && row.user_id == user_id && ltb now row.expires_at

-- the two statements of `issue_handoff`
unfoldable pub insert_handoff : HandoffRow → ℕ → Store → Result (Unit {0}) AppError × Store
insert_handoff row now store =
    let kept = delete_where (λ (r : HandoffRow). leb r.expires_at now) store.handoffs in
    if is_some (find (λ (r : HandoffRow). same r.id row.id) kept)
    then (err (from_sqlx true ""), record store { handoffs = kept })
    else (ok tt, record store { handoffs = row ∷ kept })

unfoldable pub session_for : ℕ → Claims → ℕ → Text → ForwardSession
session_for user_id parent application_id target_origin = record {
  sub = user_id;
  application_id = application_id;
  iss = codes "authere-forward";
  aud = target_origin;
  iat = parent.iat;
  exp = unwrap_or parent.session_exp parent.exp;
  session_version = parent.session_version;
  typ = codes "forward-session";
}

module _ (crates : Crates) where
  open crates use {
    sign_handoff, sign_session, read_handoff, read_session, in_time, state_hash, parse_uuid,
  }

  unfoldable pub handoff_for : Text → ℕ → ForwardSession → Text → Text → Handoff
  handoff_for jti now session redirect_path state = record {
    session = session;
    state_hash = state_hash state;
    redirect_path = redirect_path;
    jti = jti;
    iss = codes "authere-forward";
    aud = session.aud;
    exp = min session.exp (now + 60);
    typ = codes "forward-handoff";
  }

  -- the end of `issue_handoff`
  unfoldable pub store_handoff : Handoff → ℕ → Store → Result Text AppError × Store
  store_handoff handoff now store = elim (sign_handoff handoff) [
    | none ↦ (err (internal_error "Failed to sign forward credential"), store)
    | some token ↦
        let (stored, after) =
          insert_handoff
            (record { id = handoff.jti; user_id = handoff.session.sub; expires_at = handoff.exp })
            now store in
        (elim stored [ err e ↦ err e | ok _ ↦ ok token ], after)
  ]

  -- `issue_handoff`, given the fresh id
  unfoldable pub issue_handoff :
      Text → ℕ → Claims → ℕ → Text → Text → Text → Store → Result Text AppError × Store
  issue_handoff jti now parent application_id target_origin redirect_path state store =
      if not (valid_state state)
      then (err (input_error ("Invalid forward login state" ∷ [])), store)
      else elim (parse_uuid parent.sub) [
        | none ↦ (err authentication_required, store)
        | some user_id ↦
            if leb (unwrap_or parent.session_exp parent.exp) now
            then (err authentication_required, store)
            else elim (verify_user_session user_id parent.iat parent.session_version store) [
              | err e ↦ (err e, store)
              | ok _ ↦
                  store_handoff
                    (handoff_for jti now (session_for user_id parent application_id target_origin)
                      redirect_path state)
                    now store
            ]
      ]

  -- the guards of `redeem_handoff`
  unfoldable pub is_misused : ℕ → Text → Text → Handoff → Bool
  is_misused now target_origin state handoff =
      not (same handoff.typ (codes "forward-handoff"))
      || not (valid_state state)
      || not (same handoff.state_hash (state_hash state))
      || not (same handoff.session.aud target_origin)
      || leb handoff.session.exp now

  -- `decode` with the crate's checks
  unfoldable pub decode_handoff : ℕ → Text → Text → Option Handoff
  decode_handoff now target_origin token = elim (read_handoff target_origin token) [
    | none ↦ none
    | some handoff ↦ if in_time now handoff.exp then some handoff else none
  ]

  -- the delete of `redeem_handoff`, and what follows
  unfoldable pub take_handoff :
      Handoff → ℕ → Store → Result (Text × ForwardSession × Text) AppError × Store
  take_handoff handoff now store =
      let taken = is_handoff handoff.jti handoff.session.sub now in
      let after = record store { handoffs = delete_where taken store.handoffs } in
      if not (count_where taken store.handoffs == 1)
      then (err authentication_required, after)
      else elim (sign_session handoff.session) [
        | none ↦ (err (internal_error "Failed to sign forward credential"), after)
        | some token ↦ (ok (token, handoff.session, handoff.redirect_path), after)
      ]

  -- `redeem_handoff`
  unfoldable pub redeem_handoff :
      Text → Text → Text → ℕ → Store → Result (Text × ForwardSession × Text) AppError × Store
  redeem_handoff token target_origin state now store =
      elim (decode_handoff now target_origin token) [
        | none ↦ (err authentication_required, store)
        | some handoff ↦
            if is_misused now target_origin state handoff
            then (err authentication_required, store)
            else elim (verify_user_session handoff.session.sub handoff.session.iat
                handoff.session.session_version store) [
                  | err e ↦ (err e, store)
                  | ok _ ↦ take_handoff handoff now store
                ]
      ]

  -- `verify_session`
  unfoldable pub verify_session : Text → Text → ℕ → Store → Result ForwardSession AppError
  verify_session token target_origin now store = elim (read_session target_origin token) [
    | none ↦ err authentication_required
    | some claims ↦
        if not (in_time now claims.exp)
          || not (same claims.typ (codes "forward-session"))
          || leb claims.exp now
        then err authentication_required
        else verify_user_session claims.sub claims.iat claims.session_version store
          >>= (λ _. ok claims)
  ]
