-- ===== src/Session/Rotation.antt =====
-- What a rotation of refresh tokens keeps (server/src/user/auth/token.rs).
use authere.Base.{
  ℕ, ◌≤◌, ◌≡◌, refl, ◌∙◌, ◌⊎◌, sym, ap, subst, inl, inr, some, leb, arith, Bool-cases, Option-cases,
  unwrap_or,
}
use authere.Base.Text.{Text, codes, same, same_iff}
use authere.Base.Rows.{find}
use authere.Base.Errors.{AppError, ok, err, Result-cases}
use authere.Session.{
  Claims, TokenPair, Store, Crates, of_account, user_session_version, verify_user_session,
}
use authere.Session.Pair.{IsPairFor, pair_made}
use authere.Session.Tokens.{
  Fresh, get_roles, read_refresh_token, take_refresh_token, consume_refresh_token, deadline,
  rotate_token_pair,
}
use authere.Session.Verified.{IsCurrent, verify_user_session_iff}

module _ (crates : Crates) where
  open crates use {decode, hash_token, parse_uuid}

  -- What is known of the refresh token that has been read.
  pub record IsRefresh (token : Text) (now id : ℕ) (store : Store) (session : Claims) : Type 0 where
    pub claims : Claims
    pub decoded : decode now token ≡ some claims
    pub refresh : claims.typ ≡ codes "refresh"
    pub subject : parse_uuid claims.sub ≡ some id
    pub current : IsCurrent id claims.session_version claims.iat store
    pub version : ℕ
    pub kept : session ≡ record claims { session_version = some version }
    pub same_version : (v : ℕ) → claims.session_version ≡ some v → v ≡ version

  read-IsRefresh :
      (token : Text) (now id : ℕ) (store : Store) (session : Claims)
      → read_refresh_token crates token now store ≡ ok (id, session)
      → IsRefresh token now id store session
  unfolding read_refresh_token
  read-IsRefresh token now id store session h = elim (Option-cases (decode now token)) [
    | inl bad ↦ ground arith
    | inr (claims, decoded) ↦ elim (Bool-cases (same claims.typ (codes "refresh"))) [
      | inr other ↦ ground arith
      | inl refresh ↦ elim (Option-cases (parse_uuid claims.sub)) [
        | inl unreadable ↦ ground arith
        | inr (i, subject) ↦ elim (Result-cases (user_session_version i store)) [
          | inr (e, inactive) ↦ ground arith
          | inl (version, active) ↦
              elim (Result-cases (verify_user_session i claims.iat claims.session_version store)) [
                | inr (e, bad) ↦ ground arith
                | inl (u, good) ↦
                    let got : ℕ × Claims = (
                      i,
                      record claims {
                        session_version = some (unwrap_or claims.session_version version);
                      },
                    ) in
                    let wanted : ℕ × Claims = (id, session) in
                    let read : got ≡ wanted = ground arith in
                    let same_id : i ≡ id = ap (λ p. p.0) read in
                    record {
                      claims = claims;
                      decoded = decoded;
                      refresh = (same_iff claims.typ (codes "refresh")).0 refresh;
                      subject = subject ∙ ap some same_id;
                      current =
                          subst (λ j. IsCurrent j claims.session_version claims.iat store) same_id
                            ((verify_user_session_iff i claims.iat claims.session_version store).0
                              good);
                      version = unwrap_or claims.session_version version;
                      kept = sym (ap (λ p. p.1) read);
                      same_version = λ v e. rw e refl;
                    }
              ]
        ]
      ]
    ]
  ]

  consumed_read :
      (token : Text) (now : ℕ) (store : Store) (session : ℕ × Claims)
      → (consume_refresh_token crates token now store).0 ≡ ok session
      → read_refresh_token crates token now store ≡ ok session
  unfolding consume_refresh_token
  consumed_read token now store session h =
      elim (Result-cases (read_refresh_token crates token now store)) [
        | inr (e, failed) ↦ ground arith
        | inl (s, read) ↦
            elim (Bool-cases (take_refresh_token crates (hash_token token) now store).0) [
              | inl taken ↦ ground arith
              | inr lost ↦ ground arith
            ]
      ]

  rotated_made :
      (fresh : Fresh) (token : Text) (now id : ℕ) (store : Store) (session : Claims)
      (pair : TokenPair)
      → (consume_refresh_token crates token now store).0 ≡ ok (id, session)
      → (rotate_token_pair crates fresh token now store).0 ≡ ok pair
      → IsPairFor crates now id
          (deadline session)
          (unwrap_or session.auth_time session.iat)
          session.session_version
          pair
  unfolding rotate_token_pair
  rotated_made fresh token now id store session pair consumed h =
      let after = (consume_refresh_token crates token now store).1 in
      elim (Option-cases (find (of_account id) after.accounts)) [
        | inl missing ↦ ground arith
        | inr (account, found) ↦
            pair_made crates fresh now id (get_roles account.id after) (deadline session)
              session.session_version (unwrap_or session.auth_time session.iat) after pair
              (ground arith)
      ]

  failed_rotation :
      (fresh : Fresh) (token : Text) (now : ℕ) (store : Store) (e : AppError)
      → (consume_refresh_token crates token now store).0 ≡ err e
      → (rotate_token_pair crates fresh token now store).0 ≡ err e
  unfolding rotate_token_pair
  failed_rotation fresh token now store e failed = rw (rotate_token_pair, failed) refl

  -- The deadline of the session that a refresh token belongs to: the one that the token names, but
  -- not after the token's own expiry, which stands where it names none.
  pub record IsDeadline (claims : Claims) (ends : ℕ) : Type 0 where
    pub by_token : ends ≤ claims.exp
    pub by_session : (named : ℕ) → claims.session_exp ≡ some named → ends ≤ named
    pub kept : (claims.session_exp ≡ some ends) ⊎ (ends ≡ claims.exp)

  deadline-IsDeadline : (claims : Claims) → IsDeadline claims (deadline claims)
  unfolding deadline
  deadline-IsDeadline claims = elim (Option-cases claims.session_exp) [
    | inl missing ↦ record {
      by_token = omega arith;
      by_session = λ named e. cc;
      kept = inr (rw missing (omega arith));
    }
    | inr (named, e) ↦ record {
      by_token = omega arith;
      by_session =
          λ other e2. let same_end : named ≡ other = ground arith in rw (deadline, e) (omega arith);
      kept = elim (Bool-cases (leb named claims.exp)) [
        | inl early ↦ inl (rw (deadline, e) (ap some (ground arith)))
        | inr late ↦ inr (rw (deadline, e) (ground arith))
      ];
    }
  ]

  -- A rotation that succeeds was asked for with a refresh token that the server signed, of a session
  -- that stands. Both new tokens are signed for its user, with the session's generation and its time
  -- of authentication, and with the session's deadline: the one that the old token names, but not
  -- after the old token's expiry. Both tokens, and the lifetimes that are told with them, end by it.
  pub rotate_token_pair-keeps :
      (fresh : Fresh) (token : Text) (now : ℕ) (store : Store) (pair : TokenPair)
      → (rotate_token_pair crates fresh token now store).0 ≡ ok pair
      → (id : ℕ) × (session : Claims) × (old : IsRefresh token now id store session) × (ends : ℕ)
        × IsDeadline old.claims ends
        × IsPairFor crates now id ends
            (unwrap_or old.claims.auth_time old.claims.iat)
            (some old.version)
            pair
  unfolding deadline
  rotate_token_pair-keeps fresh token now store pair h =
      elim (Result-cases (consume_refresh_token crates token now store).0) [
        | inr (e, failed) ↦ let lost = failed_rotation fresh token now store e failed in cc
        | inl ((id, session), consumed) ↦
            let old =
              read-IsRefresh token now id store session
                (consumed_read token now store (id, session) consumed) in
            let made = rotated_made fresh token now id store session pair consumed h in
            let ends : deadline session ≡ deadline old.claims = ap deadline old.kept in
            (
              id,
              session,
              old,
              deadline session,
              subst (IsDeadline old.claims) (sym ends) (deadline-IsDeadline old.claims),
              subst
                  (λ c.
                    IsPairFor crates now id (deadline session) (unwrap_or c.auth_time c.iat)
                      c.session_version pair)
                  old.kept made,
            )
      ]
