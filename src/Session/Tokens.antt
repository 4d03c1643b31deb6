-- ===== src/Session/Tokens.antt =====
-- server/src/user/auth/token.rs: making, checking, consuming and rotating tokens.
use authere.Base.{
  ℕ, ◌+◌, ◌-◌, Bool, true, false, not, ◌&&◌, ◌||◌, Option, none, some, List, [], ◌∷◌, map, ◌==◌,
  leb, ltb, if◌then◌else◌, is_some, min, unwrap_or,
}
use authere.Base.Text.{Text, codes, same}
use authere.Base.Rows.{find, update_where, count_where}
use authere.Base.Errors.{
  AppError, authentication_required, internal_error, from_sqlx, Result, ok, err, ◌>>=◌,
}
use authere.Role.{get_for_user}
use authere.Session.{
  Claims, TokenPair, RefreshToken, Store, Crates, of_account, user_session_version,
  verify_user_session, revoke_all_user_tokens,
}

abbrev access_token_lifetime : ℕ
access_token_lifetime = 900

-- What a login or a rotation draws at random.
pub record Fresh : Type 0 where
  pub access_jti : Text
  pub refresh_jti : Text
  pub refresh_id : ℕ

-- `User::get_roles`
abbrev pub get_roles : ℕ → Store → List Text
get_roles id store = map (λ r. r.role_name) (get_for_user id store.tables)

abbrev pub has_token_hash : Text → RefreshToken → Bool
has_token_hash hash row = same row.token_hash hash

-- `token_hash = ? AND revoked_at IS NULL AND expires_at > ?`
abbrev pub is_usable : Text → ℕ → RefreshToken → Bool
is_usable hash now row =
    same row.token_hash hash && not (is_some row.revoked_at) && ltb now row.expires_at

-- `session_exp.is_some_and(|exp| exp <= now)`
abbrev pub is_past : ℕ → Option ℕ → Bool
is_past now none = false
is_past now (some exp) = leb exp now

unfoldable pub access_claims : Text → ℕ → Text → List Text → ℕ → Option ℕ → ℕ → Claims
access_claims jti now sub roles session_expires_at session_version auth_time = record {
  sub = sub;
  iss = codes "authere";
  aud = codes "authere";
  roles = roles;
  exp = min (now + access_token_lifetime) session_expires_at;
  iat = now;
  jti = jti;
  typ = codes "access";
  session_exp = some session_expires_at;
  session_version = session_version;
  auth_time = some auth_time;
}

unfoldable pub refresh_claims : Text → ℕ → Text → ℕ → Option ℕ → ℕ → Claims
refresh_claims jti now sub expires_at session_version auth_time = record {
  sub = sub;
  iss = codes "authere";
  aud = codes "authere";
  roles = [];
  exp = expires_at;
  iat = now;
  jti = jti;
  typ = codes "refresh";
  session_exp = some expires_at;
  session_version = session_version;
  auth_time = some auth_time;
}

-- the deadline that a rotation keeps
unfoldable pub deadline : Claims → ℕ
deadline claims = min (unwrap_or claims.session_exp claims.exp) claims.exp

-- the end of `verify_access_token`: the session, and the roles that the database has now
unfoldable pub accept_session : Claims → ℕ → Store → Result Claims AppError
accept_session claims id store =
    verify_user_session id claims.iat claims.session_version store >>= (λ _.
      elim (find (of_account id) store.accounts) [
        | none ↦ err authentication_required
        | some account ↦ ok (record claims { roles = get_roles account.id store })
      ])

module _ (crates : Crates) where
  open crates use {encode, decode, hash_token, parse_uuid, show_uuid}

  -- `encode(…).map_err(…)`
  unfoldable pub sign : Claims → Result Text AppError
  sign claims = elim (encode claims) [
    | none ↦ err (internal_error "Failed to encode JWT")
    | some token ↦ ok token
  ]

  -- `generate_access_token_for_session`
  unfoldable pub generate_access_token_for_session :
      Text → ℕ → ℕ → List Text → ℕ → Option ℕ → ℕ → Result Text AppError
  generate_access_token_for_session jti now id roles session_expires_at session_version auth_time =
      sign (access_claims jti now (show_uuid id) roles session_expires_at session_version auth_time)

  -- the insert; the ids are a key, the hashes are not
  unfoldable pub insert_refresh_token : RefreshToken → Store → Result (Unit {0}) AppError × Store
  insert_refresh_token row store =
      if is_some (find (λ (r : RefreshToken). r.id == row.id) store.refresh_tokens)
      then (err (from_sqlx true ""), store)
      else (ok tt, record store { refresh_tokens = row ∷ store.refresh_tokens })

  unfoldable pub refresh_row : ℕ → ℕ → ℕ → ℕ → Text → RefreshToken
  refresh_row row_id now id expires_at token = record {
    id = row_id;
    user_id = id;
    token_hash = hash_token token;
    expires_at = expires_at;
    created_at = now;
    revoked_at = none;
    browser_retry_until = none;
    browser_retry_pair = none;
  }

  -- `generate_refresh_token_for_session`
  unfoldable pub generate_refresh_token_for_session :
      Fresh → ℕ → ℕ → ℕ → Option ℕ → ℕ → Store → Result Text AppError × Store
  generate_refresh_token_for_session fresh now id expires_at session_version auth_time store =
      elim (sign (
        refresh_claims fresh.refresh_jti now (show_uuid id) expires_at session_version auth_time)) [
          | err e ↦ (err e, store)
          | ok token ↦
              let (stored, after) =
                insert_refresh_token (refresh_row fresh.refresh_id now id expires_at token) store in
              elim stored [ err e ↦ (err e, after) | ok _ ↦ (ok token, after) ]
        ]

  unfoldable pub token_pair : ℕ → Text → Text → TokenPair
  token_pair remaining access refresh = record {
    access_token = access;
    refresh_token = refresh;
    expires_in = min access_token_lifetime remaining;
    refresh_expires_in = remaining;
    token_type = codes "Bearer";
  }

  -- `generate_token_pair_for_session`
  unfoldable pub generate_token_pair_for_session :
      Fresh → ℕ → ℕ → List Text → ℕ → Option ℕ → ℕ → Store → Result TokenPair AppError × Store
  generate_token_pair_for_session fresh now id roles expires_at session_version auth_time store =
      if leb expires_at now
      then (err authentication_required, store)
      else elim (generate_access_token_for_session fresh.access_jti now id roles expires_at
          session_version auth_time) [
            | err e ↦ (err e, store)
            | ok access ↦
                let (made, after) =
                  generate_refresh_token_for_session fresh now id expires_at session_version
                    auth_time store in
                elim made [
                  | err e ↦ (err e, after)
                  | ok refresh ↦ (ok (token_pair (expires_at - now) access refresh), after)
                ]
          ]

  -- `generate_token_pair`, given the `session_expiry_seconds` setting
  unfoldable pub generate_token_pair :
      ℕ → Fresh → ℕ → ℕ → List Text → Store → Result TokenPair AppError × Store
  generate_token_pair lifetime fresh now id roles store = elim (user_session_version id store) [
    | err e ↦ (err e, store)
    | ok version ↦
        generate_token_pair_for_session fresh now id roles (now + lifetime) (some version) now store
  ]

  -- `verify_access_token`
  unfoldable pub verify_access_token : Text → ℕ → Store → Result Claims AppError
  verify_access_token token now store = elim (decode now token) [
    | none ↦ err authentication_required
    | some claims ↦
        if not (same claims.typ (codes "access"))
        then err authentication_required
        else if leb claims.exp now || is_past now claims.session_exp
        then err authentication_required
        else elim (parse_uuid claims.sub) [
          | none ↦ err (internal_error "Invalid user ID in token")
          | some id ↦ accept_session claims id store
        ]
  ]

  -- the claims of a refresh token that may be consumed, and its user
  unfoldable pub read_refresh_token : Text → ℕ → Store → Result (ℕ × Claims) AppError
  read_refresh_token token now store = elim (decode now token) [
    | none ↦ err authentication_required
    | some claims ↦
        if not (same claims.typ (codes "refresh"))
        then err authentication_required
        else elim (parse_uuid claims.sub) [
          | none ↦ err authentication_required
          | some id ↦ user_session_version id store >>= (λ version.
              verify_user_session id claims.iat claims.session_version store >>= (λ _. ok (
                id,
                record claims { session_version = some (unwrap_or claims.session_version version) },
              )))
        ]
  ]

  -- the update of `consume_refresh_token`, and the reaction to a replay
  unfoldable pub take_refresh_token : Text → ℕ → Store → Bool × Store
  take_refresh_token hash now store =
      let taken =
        update_where (is_usable hash now) (λ row. record row { revoked_at = some now })
          store.refresh_tokens in
      let after = record store { refresh_tokens = taken } in
      if count_where (is_usable hash now) store.refresh_tokens == 1
      then (true, after)
      else elim (find (has_token_hash hash) taken) [
        | none ↦ (false, after)
        | some row ↦ (false, revoke_all_user_tokens row.user_id now after)
      ]

  -- `consume_refresh_token`
  unfoldable pub consume_refresh_token : Text → ℕ → Store → Result (ℕ × Claims) AppError × Store
  consume_refresh_token token now store = elim (read_refresh_token token now store) [
    | err e ↦ (err e, store)
    | ok session ↦
        let (taken, after) = take_refresh_token (hash_token token) now store in
        (if taken then ok session else err authentication_required, after)
  ]

  -- `rotate_token_pair`
  unfoldable pub rotate_token_pair : Fresh → Text → ℕ → Store → Result TokenPair AppError × Store
  rotate_token_pair fresh token now store =
      let (consumed, after) = consume_refresh_token token now store in
      elim consumed [
        | err e ↦ (err e, after)
        | ok session ↦ elim (find (of_account session.0) after.accounts) [
          | none ↦ (err authentication_required, after)
          | some account ↦
              generate_token_pair_for_session fresh now session.0 (get_roles account.id after)
                (deadline session.1) session.1.session_version
                (unwrap_or session.1.auth_time session.1.iat) after
        ]
      ]
