-- ===== src/Oauth/SignedOut.antt =====
-- Whose sessions `end_session` and `end_session_post` of server/src/handlers/oauth.rs revoke.
use authere.Base.{
  ℕ, ◌≡◌, ◌⊎◌, refl, inl, inr, Bool, true, false, Option, none, some, arith, is_some, ◌&&◌,
  Bool-cases, Option-cases,
}
use authere.Base.Text.{Text}
use authere.Base.Errors.{AppError, Result, ok, err, Result-cases}
use authere.Http.{Headers, extract_cookie, auth_cookie_name}
use authere.Session.{Claims, TokenPair}
use authere.Session.Tokens.{Fresh, verify_access_token}
use authere.Oauth.{Crates, Db, Resolved, resolve_browser_session}
use authere.Oauth.Logout.{
  EndSessionQuery, Party, read_party, is_matching, revoke, end_found, end_required, end_resolved,
  reply_resolved, reply_presented, end_session_response, end_session_impl, is_own_origin,
  end_session_post, is_client_error, clears_cookies,
}

module _ (crates : Crates) (q : EndSessionQuery) where
  -- A logout of the user of a session: it was confirmed, or a hint of the same session came with it.
  pub record IsLogout (confirmed : Bool) (party : Party) (now : ℕ) (session : Claims)
      (base after : Db) : Type 0 where
    pub uid : ℕ
    pub subject : crates.sessions.parse_uuid session.sub ≡ some uid
    pub allowed : (confirmed ≡ true) ⊎ (is_matching crates party.hint session uid base ≡ true)
    pub revoked : after ≡ revoke crates uid now base

  end_found_cases :
      (confirmed require_matching : Bool) (party : Party) (now : ℕ) (session : Claims) (db : Db)
      → ((end_found crates q confirmed require_matching party now session db).1 ≡ db)
        ⊎ IsLogout confirmed party now session db
            (end_found crates q confirmed require_matching party now session db).1
  unfolding end_found
  end_found_cases confirmed require_matching party now session db =
      elim (Option-cases (crates.sessions.parse_uuid session.sub)) [
        | inl bad ↦ inl (rw (end_found, bad) refl)
        | inr (uid, subject) ↦ elim (Bool-cases (is_matching crates party.hint session uid db)) [
          | inl matching ↦ inr (record {
            uid = uid;
            subject = subject;
            allowed = inr matching;
            revoked = ground arith;
          })
          | inr apart ↦ elim (Bool-cases require_matching) [
            | inl required ↦ inl (ground arith)
            | inr free ↦ elim (Bool-cases confirmed) [
              | inl sure ↦ inr (record {
                uid = uid;
                subject = subject;
                allowed = inl sure;
                revoked = ground arith;
              })
              | inr unsure ↦ inl (ground arith)
            ]
          ]
        ]
      ]

  module _ (confirmed : Bool) (party : Party) (headers : Headers) (now : ℕ) where
    -- the session of the access cookie
    abbrev pub IsPresented : Db → Claims → Type 0
    IsPresented db session =
        (access : Text) × (extract_cookie crates.to_str headers auth_cookie_name ≡ some access)
        × (verify_access_token crates.sessions access now db.sessions ≡ ok session)

    reply_presented_cases :
        (db : Db) (result : Result Claims AppError)
        → ((reply_presented crates q confirmed party now db result).db ≡ db)
          ⊎ ((session : Claims) × (result ≡ ok session)
              × IsLogout confirmed party now session db
                  (reply_presented crates q confirmed party now db result).db)
    unfolding reply_presented
    reply_presented_cases db (err e) = inl refl
    reply_presented_cases db (ok session) =
        elim (end_found_cases confirmed true party now session db) [
          | inl same_db ↦ inl same_db
          | inr logout ↦ inr (session, refl, logout)
        ]

    end_required_cases :
        (db : Db)
        → ((end_required crates q confirmed party headers now db).db ≡ db)
          ⊎ ((session : Claims) × IsPresented db session
              × IsLogout confirmed party now session db
                  (end_required crates q confirmed party headers now db).db)
    unfolding end_required
    end_required_cases db = elim (Bool-cases (is_some party.hint)) [
      | inr unhinted ↦ inl (rw (end_required, unhinted) refl)
      | inl hinted ↦ elim (Option-cases (extract_cookie crates.to_str headers auth_cookie_name)) [
        | inl missing ↦ inl (rw (end_required, hinted, missing) refl)
        | inr (access, sent) ↦
            elim (reply_presented_cases db
              (verify_access_token crates.sessions access now db.sessions)) [
                | inl same_db ↦ inl (rw (end_required, hinted, sent) same_db)
                | inr (session, verified, logout) ↦
                    inr (session, (access, sent, verified), rw (end_required, hinted, sent) logout)
              ]
      ]
    ]

    reply_resolved_cases :
        (db : Db) (renewed : Option TokenPair) (result : Result (Option Claims) AppError)
        → ((reply_resolved crates q confirmed party now db renewed result).db ≡ db)
          ⊎ ((session : Claims) × (result ≡ ok (some session))
              × IsLogout confirmed party now session db
                  (reply_resolved crates q confirmed party now db renewed result).db)
    unfolding reply_resolved
    reply_resolved_cases db renewed (err e) = inl refl
    reply_resolved_cases db renewed (ok none) = inl refl
    reply_resolved_cases db renewed (ok (some session)) =
        elim (end_found_cases confirmed false party now session db) [
          | inl same_db ↦ inl same_db
          | inr logout ↦ inr (session, refl, logout)
        ]

  module _ (confirmed : Bool) (fresh : Fresh) (headers : Headers) (now : ℕ) (db : Db) where
    -- An error that replaces a response, and the cookies of a renewal, leave the tables alone.
    end_session_impl_db :
        (require_matching : Bool)
        → (end_session_impl crates q confirmed require_matching fresh headers now db).db
          ≡ (end_session_response crates q confirmed require_matching fresh headers now db).db
    unfolding end_session_impl
    end_session_impl_db require_matching =
        let out = end_session_response crates q confirmed require_matching fresh headers now db in
        elim (Bool-cases (require_matching && is_client_error crates out.reply)) [
          | inl hidden ↦ rw (end_session_impl, hidden) refl
          | inr shown ↦ elim (Bool-cases (clears_cookies out.reply)) [
            | inl cleared ↦ rw (end_session_impl, shown, cleared) refl
            | inr kept ↦ rw (end_session_impl, shown, kept) refl
          ]
        ]

    abbrev pub browser_session : Resolved
    browser_session =
        resolve_browser_session crates.sessions crates.to_str fresh headers now db.sessions

    -- A logout from the server's own pages revokes nothing, or all tokens of one user: the one whose
    -- session the browser has, and only if the logout was confirmed there or came with an ID token
    -- of that session. Else the tables are as the lookup of the session leaves them.
    pub end_session_impl_own :
        ((end_session_impl crates q confirmed false fresh headers now db).db ≡ db)
        ⊎ ((end_session_impl crates q confirmed false fresh headers now db).db
            ≡ record db { sessions = browser_session.store })
        ⊎ ((party : Party) × (session : Claims) × (read_party crates q db.applications ≡ ok party)
            × (browser_session.result ≡ ok (some session))
            × IsLogout confirmed party now session
                (record db { sessions = browser_session.store })
                (end_session_impl crates q confirmed false fresh headers now db).db)
    unfolding end_session_response end_resolved
    end_session_impl_own =
        rw (end_session_impl_db false) (elim (Result-cases (read_party crates q db.applications)) [
          | inr (e, bad) ↦ inl (rw (end_session_response, bad) refl)
          | inl (party, read) ↦
              elim (reply_resolved_cases confirmed party headers now _ browser_session.renewed
                browser_session.result) [
                  | inl same_db ↦ inr (inl (rw (end_session_response, read) same_db))
                  | inr (session, found, logout) ↦
                      inr
                        (inr (party, session, read, found, rw (end_session_response, read) logout))
                ]
        ])

  -- A logout that is posted from another site changes nothing, or it revokes the tokens of the user
  -- whose access cookie came with it, and then an ID token of that same session came with it too.
  pub end_session_post_foreign :
      (fresh : Fresh) (headers : Headers) (now : ℕ) (db : Db)
      → is_own_origin crates headers ≡ false
      → ((end_session_post crates q fresh headers now db).db ≡ db)
        ⊎ ((party : Party) × (session : Claims) × (read_party crates q db.applications ≡ ok party)
            × IsPresented false party headers now db session
            × IsLogout false party now session db
                (end_session_post crates q fresh headers now db).db)
  unfolding end_session_post end_session_response
  end_session_post_foreign fresh headers now db foreign =
      rw (end_session_post, foreign, end_session_impl_db false fresh headers now db true)
        (elim (Result-cases (read_party crates q db.applications)) [
          | inr (e, bad) ↦ inl (rw (end_session_response, bad) refl)
          | inl (party, read) ↦ elim (end_required_cases false party headers now db) [
            | inl same_db ↦ inl (rw (end_session_response, read) same_db)
            | inr (session, presented, logout) ↦
                inr (party, session, read, presented, rw (end_session_response, read) logout)
          ]
        ])
