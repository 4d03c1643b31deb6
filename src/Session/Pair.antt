-- ===== src/Session/Pair.antt =====
-- What the tokens of a pair are signed with (server/src/user/auth/token.rs).
use authere.Base.{
  ℕ, ◌+◌, ◌-◌, ◌≤◌, ◌<◌, ◌≡◌, refl, subst, inl, inr, Option, some, List, leb, arith, Bool-cases,
  Option-cases,
}
use authere.Base.Text.{Text, codes}
use authere.Base.Errors.{ok, Result-cases}
use authere.Session.{Claims, TokenPair, Store, Crates}
use authere.Session.Tokens.{
  Fresh, access_claims, refresh_claims, sign, generate_access_token_for_session,
  generate_refresh_token_for_session, insert_refresh_token, refresh_row, token_pair,
  generate_token_pair_for_session, deadline,
}

module _ (crates : Crates) where
  open crates use {encode, show_uuid}

  -- A token of a session, with the claims that it is signed with.
  pub record IsSigned (typ : Text) (now id deadline auth_time : ℕ) (version : Option ℕ)
      (token : Text) : Type 0 where
    pub claims : Claims
    pub signed : encode claims ≡ some token
    pub kind : claims.typ ≡ typ
    pub subject : claims.sub ≡ show_uuid id
    pub issued : claims.iat ≡ now
    pub ends : claims.exp ≤ deadline
    pub session_ends : claims.session_exp ≡ some deadline
    pub generation : claims.session_version ≡ version
    pub authenticated : claims.auth_time ≡ some auth_time

  -- What a pair is for: both tokens are signed for the user with the deadline, the session's
  -- generation and its time of authentication, they and the pair's lifetimes end by the deadline.
  pub record IsPairFor (now id deadline auth_time : ℕ) (version : Option ℕ) (pair : TokenPair)
      : Type 0 where
    pub running : now < deadline
    pub access : IsSigned (codes "access") now id deadline auth_time version pair.access_token
    pub refresh : IsSigned (codes "refresh") now id deadline auth_time version pair.refresh_token
    pub refresh_ends : now + pair.refresh_expires_in ≡ deadline
    pub access_ends : now + pair.expires_in ≤ deadline

  access-IsSigned :
      (jti : Text) (now id : ℕ) (roles : List Text) (deadline auth_time : ℕ) (version : Option ℕ)
      (token : Text)
      → encode (access_claims jti now (show_uuid id) roles deadline version auth_time) ≡ some token
      → IsSigned (codes "access") now id deadline auth_time version token
  unfolding access_claims
  access-IsSigned jti now id roles deadline auth_time version token h = record {
    claims = access_claims jti now (show_uuid id) roles deadline version auth_time;
    signed = h;
    kind = refl;
    subject = refl;
    issued = refl;
    ends = omega arith;
    session_ends = refl;
    generation = refl;
    authenticated = refl;
  }

  refresh-IsSigned :
      (jti : Text) (now id deadline auth_time : ℕ) (version : Option ℕ) (token : Text)
      → encode (refresh_claims jti now (show_uuid id) deadline version auth_time) ≡ some token
      → IsSigned (codes "refresh") now id deadline auth_time version token
  unfolding refresh_claims
  refresh-IsSigned jti now id deadline auth_time version token h = record {
    claims = refresh_claims jti now (show_uuid id) deadline version auth_time;
    signed = h;
    kind = refl;
    subject = refl;
    issued = refl;
    ends = omega arith;
    session_ends = refl;
    generation = refl;
    authenticated = refl;
  }

  sign-ok :
      (claims : Claims) (token : Text) → sign crates claims ≡ ok token → encode claims ≡ some token
  unfolding sign
  sign-ok claims token h = elim (Option-cases (encode claims)) [
    | inl failed ↦ ground arith
    | inr (t, made) ↦ ground arith
  ]

  refresh_made :
      (fresh : Fresh) (now id expires_at : ℕ) (version : Option ℕ) (auth_time : ℕ) (store : Store)
      (token : Text)
      → (generate_refresh_token_for_session crates fresh now id expires_at version auth_time
          store).0
        ≡ ok token
      → sign crates
          (refresh_claims fresh.refresh_jti now (show_uuid id) expires_at version auth_time)
        ≡ ok token
  unfolding generate_refresh_token_for_session
  refresh_made fresh now id expires_at version auth_time store token h =
      elim (Result-cases (
        sign crates
          (refresh_claims fresh.refresh_jti now (show_uuid id) expires_at version auth_time))) [
            | inr (e, failed) ↦ ground arith
            | inl (t, made) ↦
                elim (Result-cases
                  (insert_refresh_token crates
                    (refresh_row crates fresh.refresh_id now id expires_at t) store).0) [
                      | inr (e, failed) ↦ ground arith
                      | inl (u, stored) ↦ ground arith
                    ]
          ]

  pub pair_made :
      (fresh : Fresh) (now id : ℕ) (roles : List Text) (expires_at : ℕ) (version : Option ℕ)
      (auth_time : ℕ) (store : Store) (pair : TokenPair)
      → (generate_token_pair_for_session crates fresh now id roles expires_at version auth_time
          store).0
        ≡ ok pair
      → IsPairFor now id expires_at auth_time version pair
  unfolding generate_token_pair_for_session generate_access_token_for_session token_pair
  pair_made fresh now id roles expires_at version auth_time store pair h =
      elim (Bool-cases (leb expires_at now)) [
        | inl over ↦ ground arith
        | inr alive ↦
            elim (Result-cases (
              sign crates (
                access_claims fresh.access_jti now (show_uuid id) roles expires_at version
                  auth_time))) [
                    | inr (e, failed) ↦ ground arith
                    | inl (access, made) ↦
                        elim (Result-cases
                          (generate_refresh_token_for_session crates fresh now id expires_at version
                            auth_time store).0) [
                              | inr (e, failed) ↦ ground arith
                              | inl (refresh, made') ↦
                                  let before : now < expires_at = ground arith in
                                  let shape : token_pair crates (expires_at - now) access refresh
                                      ≡ pair =
                                    ground arith in
                                  subst (IsPairFor now id expires_at auth_time version) shape
                                    (record {
                                      running = before;
                                      access =
                                          access-IsSigned fresh.access_jti now id roles expires_at
                                            auth_time version access (sign-ok _ access made);
                                      refresh =
                                          refresh-IsSigned fresh.refresh_jti now id expires_at
                                            auth_time version refresh
                                            (sign-ok _ refresh (
                                              refresh_made fresh now id expires_at version auth_time
                                                store refresh made'));
                                      refresh_ends = omega arith;
                                      access_ends = omega arith;
                                    })
                            ]
                  ]
      ]
