-- ===== src/Oauth/Replies.antt =====
-- The replies of `authorize` once its checks have passed, case by case.
use authere.Base.{
  ℕ, ◌≡◌, ◌⊎◌, refl, ap, inl, inr, true, Option, none, some, List, ◌∷◌, Bool-cases, Option-cases,
  is_some,
}
use authere.Base.Rows.{find}
use authere.Base.Text.{Text, codes}
use authere.Base.Errors.{AppError, Result, ok, err, from_sqlx}
use authere.Http.{Headers}
use authere.User.{User}
use authere.Application.Access.{check_access_resolved}
use authere.Session.{Claims, TokenPair}
use authere.Session.Tokens.{get_roles}
use authere.Oidc.Codes.{Codes, Grant, new_row, issue, has_hash}
use authere.Oauth.{
  OAuthError, login_required, server_error, access_denied, error_params, with_state, Crates, Db,
  Resolved, get_user, append_query, resolve_browser_session,
}
use authere.Oauth.Authorize.{
  AuthorizeQuery, Reply, redirect, failed, Draw, Outcome, Client, Wanted, grant_for, issue_code,
  reply_issued, reply_session, authorize_user, needs_login, login_redirect, error_redirect,
  prompt_none,
}

-- Whom a code is issued for: the user of the browser's session, who is active and has access now.
pub record IsEntitled (crates : Crates) (client : Client) (claims : Claims) (db : Db) (user_id : ℕ)
    (user : User) : Type 0 where
  pub subject : crates.sessions.parse_uuid claims.sub ≡ some user_id
  pub found : get_user user_id db ≡ some user
  pub active : user.active ≡ true
  pub access :
      check_access_resolved crates.sessions.parse_uuid db.sessions.tables client.app
        (get_roles user.id db.sessions)
      ≡ true

-- Where a reply for a client may lead: to the login, to the client, or nowhere.
abbrev IsBack : Crates → Option Text → Text → Reply → Type 0
IsBack crates path_and_query uri reply =
    (reply ≡ login_redirect crates path_and_query)
    ⊎ ((params : List (Text × Text)) × (reply
          ≡ redirect (append_query crates.urlencode uri params)))
    ⊎ (reply ≡ failed server_error)

issue_cases :
    (hash_code : Text → Text) (plaintext : Text) (now : ℕ) (grant : Grant) (rows : Codes)
    → (issue hash_code plaintext now grant rows ≡ (err (from_sqlx true ""), rows))
      ⊎ (issue hash_code plaintext now grant rows
          ≡ (ok plaintext, new_row (hash_code plaintext) now grant ∷ rows))
unfolding issue
issue_cases hash_code plaintext now grant rows =
    elim (Bool-cases (is_some (find (has_hash (hash_code plaintext)) rows))) [
      | inl used ↦ inl (rw (issue, used) refl)
      | inr fresh ↦ inr (rw (issue, fresh) refl)
    ]

module _ (crates : Crates) (q : AuthorizeQuery) where
  error_redirect-IsBack :
      (path_and_query : Option Text) (uri : Text) (e : OAuthError)
      → IsBack crates path_and_query uri (error_redirect crates uri q.state e)
  unfolding error_redirect
  error_redirect-IsBack path_and_query uri e = inr (inl (error_params q.state e, refl))

  needs_login-IsBack :
      (path_and_query : Option Text) (uri : Text)
      → IsBack crates path_and_query uri (needs_login crates q uri path_and_query)
  unfolding needs_login
  needs_login-IsBack path_and_query uri = elim (Bool-cases (prompt_none q)) [
    | inl silent ↦ rw silent (error_redirect-IsBack path_and_query uri login_required)
    | inr asked ↦ rw asked (inl refl)
  ]

  -- the reply that carries the code
  abbrev pub code_reply : Client → Text → Reply
  code_reply client text = redirect (
      append_query crates.urlencode client.redirect_uri ((codes "code", text) ∷ with_state q.state))

  issue_code_cases :
      (plaintext : Text) (now : ℕ) (client : Client) (grant : Grant) (db : Db)
      → (issue_code crates q plaintext now client grant db
          ≡ (error_redirect crates client.redirect_uri q.state server_error, db))
        ⊎ (issue_code crates q plaintext now client grant db ≡ (
          code_reply client plaintext,
          record db { codes = new_row (crates.hash_code plaintext) now grant ∷ db.codes },
        ))
  unfolding issue_code reply_issued
  issue_code_cases plaintext now client grant db =
      elim (issue_cases crates.hash_code plaintext now grant db.codes) [
        | inl used ↦ inl (ap (reply_issued crates q client db) used)
        | inr fresh ↦ inr (ap (reply_issued crates q client db) fresh)
      ]

  authorize_user_cases :
      (path_and_query : Option Text) (plaintext : Text) (now : ℕ) (client : Client)
      (wanted : Wanted) (claims : Claims) (db : Db)
      → ((reply : Reply) × (IsBack crates path_and_query client.redirect_uri reply)
          × (authorize_user crates q path_and_query plaintext now client wanted claims db
              ≡ (reply, db)))
        ⊎ ((user_id : ℕ) × (user : User) × IsEntitled crates client claims db user_id user
            × (authorize_user crates q path_and_query plaintext now client wanted claims db ≡ (
              code_reply client plaintext,
              record db {
                codes =
                    new_row
                      (crates.hash_code plaintext)
                      now
                      (grant_for crates q client wanted user_id claims)
                    ∷ db.codes;
              },
            )))
  unfolding authorize_user
  authorize_user_cases path_and_query plaintext now client wanted claims db =
      let back = error_redirect-IsBack path_and_query client.redirect_uri in
      let login = needs_login-IsBack path_and_query client.redirect_uri in
      elim (Option-cases (crates.sessions.parse_uuid claims.sub)) [
        | inl bad ↦ inl (_, back server_error, rw (authorize_user, bad) refl)
        | inr (user_id, subject) ↦ elim (Option-cases (get_user user_id db)) [
          | inl missing ↦ inl (_, login, rw (authorize_user, subject, missing) refl)
          | inr (user, found) ↦ elim (Bool-cases user.active) [
            | inr inactive ↦ inl (_, login, rw (authorize_user, subject, found, inactive) refl)
            | inl active ↦
                elim (Bool-cases (
                  check_access_resolved crates.sessions.parse_uuid db.sessions.tables client.app
                    (get_roles user.id db.sessions))) [
                      | inr refused ↦ inl (
                        _,
                        back access_denied,
                        rw (authorize_user, subject, found, active, refused) refl,
                      )
                      | inl access ↦
                          elim (issue_code_cases plaintext now client
                            (grant_for crates q client wanted user_id claims) db) [
                              | inl failed_issue ↦ inl (
                                _,
                                back server_error,
                                rw (authorize_user, subject, found, active, access, failed_issue)
                                    refl,
                              )
                              | inr issued ↦ inr (
                                user_id,
                                user,
                                record {
                                  subject = subject;
                                  found = found;
                                  active = active;
                                  access = access;
                                },
                                rw (authorize_user, subject, found, active, access, issued) refl,
                              )
                            ]
                    ]
          ]
        ]
      ]

  abbrev pub browser_session : Headers → Draw → ℕ → Db → Resolved
  browser_session headers draw now db =
      resolve_browser_session crates.sessions crates.to_str draw.fresh headers now db.sessions

  IsEntitled-codes :
      (client : Client) (claims : Claims) (db : Db) (user_id : ℕ) (user : User) (rows : Codes)
      → IsEntitled crates client claims db user_id user
      → IsEntitled crates client claims (record db { codes = rows }) user_id user
  unfolding get_user
  IsEntitled-codes client claims db user_id user rows e = record {
    subject = e.subject;
    found = e.found;
    active = e.active;
    access = e.access;
  }

  -- what the replies to a session have in common
  abbrev pub ReplyCases :
      Option Text
      → Text
      → ℕ
      → Client
      → Wanted
      → Codes
      → Result (Option Claims) AppError
      → Outcome
      → Type 0
  ReplyCases path_and_query plaintext now client wanted rows result out =
      ((out.db.codes ≡ rows) × IsBack crates path_and_query client.redirect_uri out.reply)
      ⊎ ((claims : Claims) × (user_id : ℕ) × (user : User) × (result ≡ ok (some claims))
          × IsEntitled crates client claims out.db user_id user
          × (out.db.codes
              ≡ new_row (crates.hash_code plaintext) now
                  (grant_for crates q client wanted user_id claims)
                ∷ rows)
          × (out.reply ≡ code_reply client plaintext))

  pub reply_session_cases :
      (path_and_query : Option Text) (plaintext : Text) (now : ℕ) (client : Client)
      (wanted : Wanted) (db : Db) (renewed : Option TokenPair)
      (result : Result (Option Claims) AppError)
      → ReplyCases path_and_query plaintext now client wanted db.codes result
          (reply_session crates q path_and_query plaintext now client wanted db renewed result)
  unfolding reply_session
  reply_session_cases path_and_query plaintext now client wanted db renewed (err e) =
      inl (refl, inr (inr refl))
  reply_session_cases path_and_query plaintext now client wanted db renewed (ok none) =
      inl (refl, needs_login-IsBack path_and_query client.redirect_uri)
  reply_session_cases path_and_query plaintext now client wanted db renewed (ok (some claims)) =
      elim (authorize_user_cases path_and_query plaintext now client wanted claims db) [
        | inl (reply, back, same_db) ↦ rw same_db (inl (refl, back))
        | inr (user_id, user, entitled, issued) ↦ rw issued (
            inr (
              claims,
              user_id,
              user,
              refl,
              IsEntitled-codes client claims db user_id user _ entitled,
              refl,
              refl,
            ))
      ]
