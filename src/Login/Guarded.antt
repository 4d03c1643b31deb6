-- ===== src/Login/Guarded.antt =====
-- When a login of server/src/handlers/auth.rs succeeds.
use authere.Base.{
  ℕ, ◌≡◌, ◌⊎◌, refl, inl, inr, true, false, Option, none, some, arith, Bool-cases, Option-cases,
  is_some,
}
use authere.Base.Text.{Text}
use authere.Base.Errors.{Result, ok, Result-cases, is_ok}
use authere.RateLimit
use authere.RateLimit.{Config, Entries}
use authere.User.{User}
use authere.User.Password
use authere.User.Login.{IsWelcome, login_iff}
use authere.Totp
use authere.Totp.{UserTotp, Factors}
use authere.Totp.Table
use authere.Totp.Login.{enforce_mfa}
use authere.Totp.Factor.{IsProof, enforce_mfa_proved}
use authere.Session.{TokenPair}
use authere.Session.Tokens.{Fresh, get_roles, generate_token_pair}
use authere.State.{Db, users_of}
use authere.Login.{
  LoginInput, Crates, BrowserReply, see_other, success, is_local_redirect, check_input,
  authenticate, start_session, log_in, login, redirect_to, browser_login_response, answer_browser,
  browser_login,
}

module _ (crates : Crates) where
  -- The second factor of a user: none that is active, or one that the code proves.
  abbrev HasFactor : ℕ → Option Text → ℕ → Factors → Type 0
  HasFactor user_id totp_code now factors =
      (Totp.Table.get user_id factors ≡ none)
      ⊎ ((row : UserTotp) × (Totp.Table.get user_id factors ≡ some row)
          × (is_some row.activated_at ≡ false))
      ⊎ ((row : UserTotp) × (given : Text) × (Totp.Table.get user_id factors ≡ some row)
          × (totp_code ≡ some given)
          × IsProof crates.totp row user_id (crates.totp.trim given) now factors)

  HasFactor-enforce_mfa :
      (user_id : ℕ) (totp_code : Option Text) (now : ℕ) (factors : Factors)
      → (enforce_mfa crates.totp user_id totp_code now factors).0 ≡ ok tt
      → HasFactor user_id totp_code now factors
  HasFactor-enforce_mfa user_id totp_code now factors h =
      elim (Option-cases (Totp.Table.get user_id factors)) [
        | inl absent ↦ inl absent
        | inr (row, present) ↦ elim (Bool-cases (is_some row.activated_at)) [
          | inr pending ↦ inr (inl (row, present, pending))
          | inl active ↦
              let (given, e, full, proof) =
                enforce_mfa_proved crates.totp user_id totp_code now factors row present active h in
              inr (inr (row, given, present, e, proof))
        ]
      ]

  -- What stands behind a pair that a login returns.
  pub record IsLoggedIn (input : LoginInput) (fresh : Fresh) (now : ℕ) (db : Db) (pair : TokenPair)
      : Type 0 where
    pub user : User
    pub checked : check_input crates input ≡ ok tt
    pub welcome :
        IsWelcome crates.argon input.username input.password (users_of db) db.authenticators user
    pub factor : HasFactor user.id input.totp_code now db.factors
    pub made :
        (generate_token_pair crates.sessions crates.session_expiry_seconds fresh now user.id
          (get_roles user.id db.sessions)
          db.sessions).0
        ≡ ok pair

  unit_ok : {E : Type 0} (r : Result (Unit {0}) E) (u : Unit {0}) → r ≡ ok u → r ≡ ok tt
  unit_ok r tt h = h

  log_in-IsLoggedIn :
      (input : LoginInput) (fresh : Fresh) (now : ℕ) (db : Db) (pair : TokenPair)
      → (log_in crates input fresh now db).0 ≡ ok pair
      → IsLoggedIn input fresh now db pair
  unfolding log_in authenticate start_session
  log_in-IsLoggedIn input fresh now db pair h = elim (Result-cases (check_input crates input)) [
    | inr (e, bad) ↦ ground arith
    | inl (u, good) ↦
        elim (Result-cases (
          Password.login crates.argon input.username input.password (users_of db)
            db.authenticators)) [
              | inr (e, unknown) ↦ ground arith
              | inl (user, known) ↦
                  elim (Result-cases
                    (enforce_mfa crates.totp user.id input.totp_code now db.factors).0) [
                      | inr (e, unproved) ↦ ground arith
                      | inl (v, proved) ↦
                          elim (Result-cases
                            (generate_token_pair crates.sessions crates.session_expiry_seconds fresh
                              now user.id (get_roles user.id db.sessions) db.sessions).0) [
                                | inr (e, unmade) ↦ ground arith
                                | inl (other, made) ↦ record {
                                  user = user;
                                  checked = unit_ok _ u good;
                                  welcome =
                                      ((login_iff crates.argon input.username input.password
                                            (users_of db) db.authenticators).0
                                          user).0
                                        known;
                                  factor =
                                      HasFactor-enforce_mfa user.id input.totp_code now db.factors
                                        (unit_ok _ v proved);
                                  made = ground arith;
                                }
                              ]
                    ]
            ]
  ]

  module _ (config : Config) (ip instant : ℕ) (input : LoginInput) (fresh : Fresh) (now : ℕ)
      (entries : Entries) (db : Db) where
    -- A login returns tokens only if the rate limiter admits it, the input is well formed, the user
    -- is active and the password is theirs, and the user has no active second factor or the code
    -- proves it; the tokens are those of this user with the present roles.
    pub login-IsLoggedIn :
        (pair : TokenPair)
        → (login crates config ip instant input fresh now entries db).0 ≡ ok pair
        → (is_ok (RateLimit.check config ip instant entries).0 ≡ true)
          × IsLoggedIn input fresh now db pair
    unfolding login
    login-IsLoggedIn pair h = elim (Result-cases (RateLimit.check config ip instant entries).0) [
      | inr (wait, refused) ↦ ground arith
      | inl (left, admitted) ↦ elim (Result-cases (log_in crates input fresh now db).0) [
        | inr (e, bad) ↦ ground arith
        | inl (other, good) ↦
            (ground arith, log_in-IsLoggedIn input fresh now db pair (ground arith))
      ]
    ]

    -- A browser's login sets the cookies of tokens that the other login would return too, and
    -- redirects only to a path of the server itself.
    browser_login-IsLoggedIn :
        (redirect_uri : Option Text) (pair : TokenPair) (reply : BrowserReply)
        → (browser_login crates config ip instant input redirect_uri fresh now entries db).0
          ≡ ok (pair, reply)
        → ((login crates config ip instant input fresh now entries db).0 ≡ ok pair)
          × ((reply ≡ success)
              ⊎ ((uri : Text) × (redirect_uri ≡ some uri)
                  × (reply ≡ see_other uri)
                  × (is_local_redirect uri ≡ true)))
    unfolding login browser_login answer_browser browser_login_response redirect_to
    browser_login-IsLoggedIn none pair reply h =
        elim (Result-cases (RateLimit.check config ip instant entries).0) [
          | inr (wait, refused) ↦ ground arith
          | inl (left, admitted) ↦ elim (Result-cases (log_in crates input fresh now db).0) [
            | inr (e, bad) ↦ ground arith
            | inl (other, good) ↦ (ground arith, inl (ground arith))
          ]
        ]
    browser_login-IsLoggedIn (some uri) pair reply h =
        elim (Result-cases (RateLimit.check config ip instant entries).0) [
          | inr (wait, refused) ↦ ground arith
          | inl (left, admitted) ↦ elim (Result-cases (log_in crates input fresh now db).0) [
            | inr (e, bad) ↦ ground arith
            | inl (other, good) ↦ elim (Bool-cases (is_local_redirect uri)) [
              | inr elsewhere ↦ (ground arith, inl (ground arith))
              | inl local ↦ (ground arith, inr (uri, refl, ground arith, local))
            ]
          ]
        ]
