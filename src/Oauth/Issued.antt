-- ===== src/Oauth/Issued.antt =====
-- When `token` of server/src/handlers/oauth.rs issues tokens.
use authere.Base.{ℕ, ◌≡◌, refl, ap, subst, inl, inr, true, false, Option, some, arith, Option-cases}
use authere.Base.Text.{Text}
use authere.Base.Rows.{find}
use authere.Base.Errors.{AppError, Result, ok, err, is_ok, Result-cases}
use authere.Http.{Headers}
use authere.User.{User}
use authere.Application.{Application}
use authere.Application.Access.{check_access_resolved, validate_redirect_uri}
use authere.Session.{Store}
use authere.Session.Verified.{IsCurrent, verify_user_session_iff}
use authere.Session.Tokens.{get_roles}
use authere.Oidc.Codes.{Code, Codes, ConsumedCode, has_hash, consumed_code, consume}
use authere.Oidc.Codes.Exchange.{IsKeyed, IsBound, consume_iff, consume_twice}
use authere.Oidc.Token.{TokenResponse, Subject, Origin, parse_scope, mint_token_pair}
use authere.Oauth.{Crates, Db, get_user}
use authere.Oauth.Client.{
  IsAuthenticated, IsPresented, authenticate_client-IsAuthenticated, read_presented_sound,
}
use authere.Oauth.Exchange.{
  TokenForm, Presented, authenticate_client, read_presented, claim_of, issue_tokens, exchange_code,
  token_of,
}

-- The subject of the tokens, and the session that they belong to.
abbrev pub subject_of : User → ConsumedCode → Store → Subject
subject_of user consumed store = record {
  user = user;
  roles = get_roles user.id store;
  scope = parse_scope consumed.scope;
}

abbrev pub origin_of : ConsumedCode → Origin
origin_of consumed = record {
  nonce = consumed.nonce;
  auth_time = consumed.auth_time;
  session_version = consumed.session_version;
  session_exp = consumed.session_exp;
}

pub accepted-of_is_ok : (r : Result (Unit {0}) AppError) → is_ok r ≡ true → r ≡ ok tt
accepted-of_is_ok (ok u) h = refl
accepted-of_is_ok (err e) h = cc

module _ (crates : Crates) where
  -- The user who gets the tokens, with the session that the code belongs to.
  pub record IsServed (app : Application) (redirect_uri : Text) (consumed : ConsumedCode)
      (jti : Text) (now : ℕ) (db : Db) (response : TokenResponse) : Type 0 where
    pub user : User
    pub current : IsCurrent consumed.user_id consumed.session_version consumed.auth_time db.sessions
    pub registered : validate_redirect_uri app redirect_uri ≡ true
    pub found : get_user consumed.user_id db ≡ some user
    pub active : user.active ≡ true
    pub access :
        check_access_resolved crates.sessions.parse_uuid db.sessions.tables app
          (get_roles user.id db.sessions)
        ≡ true
    pub minted :
        mint_token_pair crates.signer jti now app
          (subject_of user consumed db.sessions)
          (origin_of consumed)
        ≡ ok response

  issue_tokens-IsServed :
      (jti : Text) (now : ℕ) (app : Application) (redirect_uri : Text) (consumed : ConsumedCode)
      (db : Db) (response : TokenResponse)
      → issue_tokens crates jti now app redirect_uri consumed db ≡ ok response
      → IsServed app redirect_uri consumed jti now db response
  unfolding issue_tokens
  issue_tokens-IsServed jti now app redirect_uri consumed db response h =
      elim (Option-cases (get_user consumed.user_id db)) [
        | inl missing ↦ ground arith
        | inr (user, found) ↦
            elim (Result-cases (
              mint_token_pair crates.signer jti now app (subject_of user consumed db.sessions)
                (origin_of consumed))) [
                  | inr (e, unminted) ↦ ground arith
                  | inl (tokens, minted) ↦ record {
                    user = user;
                    current =
                        (verify_user_session_iff consumed.user_id consumed.auth_time
                            consumed.session_version db.sessions).0
                          (accepted-of_is_ok _ (ground arith));
                    registered = ground arith;
                    found = found;
                    active = ground arith;
                    access = ground arith;
                    minted = ground arith;
                  }
                ]
      ]

  -- What stands behind the tokens that a request has obtained.
  pub record IsIssued (headers : Headers) (form : TokenForm) (jti : Text) (now : ℕ) (db after : Db)
      (response : TokenResponse) : Type 0 where
    pub app : Application
    pub presented : Presented
    pub row : Code
    pub client : IsAuthenticated crates headers form db.applications app
    pub asked : IsPresented form presented
    pub stored : find (has_hash (crates.hash_code presented.code)) db.codes ≡ some row
    pub bound :
        IsBound crates.challenge_of now
          (record {
            application_id = app.id;
            redirect_uri = presented.redirect_uri;
            code_verifier = presented.code_verifier;
          })
          row
    pub served : IsServed app presented.redirect_uri (consumed_code row) jti now after response

  module _ (headers : Headers) (form : TokenForm) (jti : Text) (now : ℕ) (db : Db) where
    abbrev consumption : Application → Presented → Option ConsumedCode × Codes
    consumption app presented =
        consume crates.hash_code crates.challenge_of presented.code now (claim_of app presented)
          db.codes

    -- The requests that succeed are those of a client and a code.
    token_of_ok :
        (response : TokenResponse)
        → (token_of crates headers form jti now db).0 ≡ ok response
        → (app : Application) × (presented : Presented) × (consumed : ConsumedCode)
          × IsAuthenticated crates headers form db.applications app
          × IsPresented form presented
          × ((consumption app presented).0 ≡ some consumed)
          × ((token_of crates headers form jti now db).1
              ≡ record db { codes = (consumption app presented).1 })
          × (issue_tokens crates jti now app presented.redirect_uri consumed
                (record db { codes = (consumption app presented).1 })
              ≡ ok response)
    unfolding token_of exchange_code
    token_of_ok response h =
        elim (Result-cases (authenticate_client crates headers form db.applications)) [
          | inr (e, bad) ↦ ground arith
          | inl (app, good) ↦ elim (Result-cases (read_presented form)) [
            | inr (e, bad) ↦ ground arith
            | inl (presented, read) ↦ elim (Option-cases (consumption app presented).0) [
              | inl nothing ↦ ground arith
              | inr (consumed, taken) ↦ (
                app,
                presented,
                consumed,
                authenticate_client-IsAuthenticated crates headers form db.applications app good,
                read_presented_sound form presented read,
                taken,
                ground arith,
                ground arith,
              )
            ]
          ]
        ]

    -- With unique code hashes, tokens are issued only to an enabled client that has authenticated
    -- itself, for a code that it knows, that was not used and has not expired, with the redirect URI
    -- and the PKCE verifier of the code; only if the session that the code belongs to is valid at
    -- that time, its user is active and has access; and they are made out to that user and session.
    pub token_of-IsIssued :
        (response : TokenResponse)
        → IsKeyed db.codes
        → (token_of crates headers form jti now db).0 ≡ ok response
        → IsIssued headers form jti now db (token_of crates headers form jti now db).1 response
    token_of-IsIssued response keyed h =
        let (app, presented, consumed, client, code, taken, after, issued) =
          token_of_ok response h in
        let (row, stored, bound, same_row) =
          (consume_iff crates.hash_code crates.challenge_of presented.code now
              (claim_of app presented) db.codes consumed keyed).0
            taken in
        record {
          app = app;
          presented = presented;
          row = row;
          client = client;
          asked = code;
          stored = stored;
          bound = bound;
          served = rw after (
              subst
                (λ c.
                  IsServed app presented.redirect_uri c jti now
                    (record db { codes = (consumption app presented).1 }) response)
                same_row
                (issue_tokens-IsServed jti now app presented.redirect_uri consumed _ response
                  issued));
        }

  -- With unique code hashes, once a request has obtained tokens for a code, no later request obtains
  -- tokens for it, of whichever client and at whatever time.
  token_of_twice :
      (headers other_headers : Headers) (form other : TokenForm) (jti other_jti : Text)
      (now later : ℕ) (db : Db) (response : TokenResponse)
      → IsKeyed db.codes
      → (token_of crates headers form jti now db).0 ≡ ok response
      → other.code ≡ form.code
      → is_ok
          (token_of crates other_headers other other_jti later
            (token_of crates headers form jti now db).1).0
        ≡ false
  token_of_twice headers other_headers form other jti other_jti now later db response keyed h
        again =
      let after = (token_of crates headers form jti now db).1 in
      elim (Result-cases (token_of crates other_headers other other_jti later after).0) [
        | inr (e, refused) ↦ rw refused refl
        | inl (second, accepted) ↦
            let (app, presented, consumed, _, code, taken, left, _) =
              token_of_ok headers form jti now db response h in
            let (app2, presented2, consumed2, _, code2, taken2, _, _) =
              token_of_ok other_headers other other_jti later after second accepted in
            let same_code : presented2.code ≡ presented.code =
              (let a = code.code in let b = code2.code in ground arith) in
            let never =
              consume_twice crates.hash_code crates.challenge_of presented.code now later
                (claim_of app presented) (claim_of app2 presented2) db.codes consumed keyed taken in
            let rows : after.codes ≡ (consumption headers form jti now db app presented).1 =
              ap (λ (d : Db). d.codes) left in
            cc
      ]
