-- ===== src/Oauth/Granted.antt =====
-- When `authorize` of server/src/handlers/oauth.rs issues a code, and where it redirects to.
use authere.Base.{ℕ, ◌≡◌, ◌⊎◌, refl, inl, inr, Option, some, List, ◌∷◌}
use authere.Base.Text.{Text}
use authere.Base.Errors.{ok, Result-cases}
use authere.Http.{Headers}
use authere.User.{User}
use authere.Session.{Claims}
use authere.Oidc.Codes.{new_row}
use authere.Oauth.{OAuthError, server_error, error_params, Crates, Db, append_query}
use authere.Oauth.Authorize.{
  AuthorizeQuery, redirect, failed, Draw, Outcome, Client, Wanted, check_client, check_parameters,
  grant_for, authorize_session, authorize, login_redirect, error_redirect,
}
use authere.Oauth.Trusted.{IsTrusted, IsWanted, IsTrusted-check_client, IsWanted-check_parameters}
use authere.Oauth.Replies.{IsEntitled, browser_session, code_reply, ReplyCases, reply_session_cases}

module _ (crates : Crates) (q : AuthorizeQuery) where
  -- What a code stands for that a request has obtained.
  pub record IsGranted (headers : Headers) (draw : Draw) (now : ℕ) (db : Db) (out : Outcome)
      : Type 0 where
    pub client : Client
    pub wanted : Wanted
    pub claims : Claims
    pub user_id : ℕ
    pub user : User
    pub trusted : IsTrusted q db.applications client
    pub wants : IsWanted crates q wanted
    pub session : (browser_session crates q headers draw now db).result ≡ ok (some claims)
    pub entitled : IsEntitled crates client claims out.db user_id user
    pub stored :
        out.db.codes
        ≡ new_row
            (crates.hash_code draw.plaintext)
            now
            (grant_for crates q client wanted user_id claims)
          ∷ db.codes
    pub sent : out.reply ≡ code_reply crates q client draw.plaintext

  module _ (headers : Headers) (path_and_query : Option Text) (draw : Draw) (now : ℕ)
      (db : Db) where
    -- What a request does after its checks have passed.
    authorize-of_checked :
        (client : Client) (wanted : Wanted)
        → check_client q db.applications ≡ ok client
        → check_parameters crates q ≡ ok wanted
        → ReplyCases crates q path_and_query draw.plaintext now client wanted db.codes
            (browser_session crates q headers draw now db).result
            (authorize crates q headers path_and_query draw now db)
    unfolding authorize authorize_session
    authorize-of_checked client wanted h k =
        rw (authorize, h, k)
          (reply_session_cases crates q path_and_query draw.plaintext now client wanted _ _ _)

    -- A request for authorization leaves the codes as they are, or adds one: for a client that is
    -- enabled and has registered the redirect URI, with an S256 challenge and scopes that the server
    -- knows, and for the active user of the browser's session, who has access at that time. The code
    -- is sent to that URI alone.
    pub authorize_issues :
        ((authorize crates q headers path_and_query draw now db).db.codes ≡ db.codes)
        ⊎ IsGranted headers draw now db (authorize crates q headers path_and_query draw now db)
    unfolding authorize
    authorize_issues = elim (Result-cases (check_client q db.applications)) [
      | inr (e, h) ↦ inl (rw (authorize, h) refl)
      | inl (client, h) ↦ elim (Result-cases (check_parameters crates q)) [
        | inr (e, k) ↦ inl (rw (authorize, h, k) refl)
        | inl (wanted, k) ↦ elim (authorize-of_checked client wanted h k) [
          | inl (same_codes, back) ↦ inl same_codes
          | inr (claims, user_id, user, session, entitled, stored, sent) ↦ inr (record {
            client = client;
            wanted = wanted;
            claims = claims;
            user_id = user_id;
            user = user;
            trusted = IsTrusted-check_client q db.applications client h;
            wants = IsWanted-check_parameters crates q wanted k;
            session = session;
            entitled = entitled;
            stored = stored;
            sent = sent;
          })
        ]
      ]
    ]

    -- A request for authorization redirects the browser only to the server's login, or to the
    -- redirect URI of an enabled client that has registered it; any other reply is no redirect.
    pub authorize_redirects :
        ((e : OAuthError) × ((authorize crates q headers path_and_query draw now db).reply
            ≡ failed e))
        ⊎ ((authorize crates q headers path_and_query draw now db).reply
            ≡ login_redirect crates path_and_query)
        ⊎ ((client : Client) × IsTrusted q db.applications client
            × (params : List (Text × Text)) × ((authorize crates q headers path_and_query draw now
                  db).reply
                ≡ redirect (append_query crates.urlencode client.redirect_uri params)))
    unfolding authorize error_redirect
    authorize_redirects = elim (Result-cases (check_client q db.applications)) [
      | inr (e, h) ↦ inl (e, rw (authorize, h) refl)
      | inl (client, h) ↦
          let trusted = IsTrusted-check_client q db.applications client h in
          elim (Result-cases (check_parameters crates q)) [
            | inr (e, k) ↦
                inr (inr (client, trusted, error_params q.state e, rw (authorize, h, k) refl))
            | inl (wanted, k) ↦ elim (authorize-of_checked client wanted h k) [
              | inr (claims, user_id, user, session, entitled, stored, sent) ↦
                  inr (inr (client, trusted, _, sent))
              | inl (same_codes, back) ↦ elim back [
                | inl login ↦ inr (inl login)
                | inr (inl (params, e)) ↦ inr (inr (client, trusted, params, e))
                | inr (inr e) ↦ inl (server_error, e)
              ]
            ]
          ]
    ]
