-- ===== src/Lib.antt =====
-- A model of the authere server (server/src), an identity provider that protects web applications
-- behind a reverse proxy (forward authentication) and by OpenID Connect, with theorems about it.
--
-- The parts, and how they interact. A request to a protected site reaches the handlers in
-- server/src/handlers/auth.rs, which bring its path into normal form, choose the policy for its host
-- and path (server/src/application.rs) and compare the roles of the user (server/src/role.rs) with
-- those that the policy requires. Sessions (server/src/user/auth/token.rs) are signed tokens whose
-- refresh tokens, generations and revocations are in the database; a handoff
-- (server/src/user/auth/forward.rs) carries one to another origin, and an authorization code
-- (server/src/oidc/codes.rs) to an OpenID Connect client, which the endpoints of
-- server/src/handlers/oauth.rs serve. A login checks a password (server/src/user/auth/mod.rs),
-- may need a second factor (server/src/user/auth/totp.rs), and is counted by a rate limiter
-- (server/src/rate_limit.rs). A directory (server/src/ldap) shows the users and roles.
--
-- - Base: shared names, texts (Base/Text), tables as lists of rows with the statements that act on
--   them (Base/Rows), and server/src/errors.rs (Base/Errors: `AppError`, `status_code`,
--   `into_response`, `from_sqlx`, and the results of fallible code).
-- - Http: headers, cookies and words, as the handlers read them.
-- - Role: server/src/role.rs: `Role.new`, `get`, `get_by_name`, `save`, `delete`, `assign`, `remove`,
--   `get_for_user`, each from the method of its name, over the tables of `Tables`; and
--   server/src/handlers/role.rs (Role/Manage).
-- - Application: server/src/application.rs: the record and its making and update, `matches` and
--   `find_matching` (Application/Policy), `check_access` and `check_access_resolved`
--   (Application/Access), `validate_input` (Application/Input).
-- - User: server/src/user/mod.rs: the users, their making and update (User), passwords and the login
--   (User/Password), app passwords (User/AppPassword).
-- - Invitation: server/src/invitation.rs: `Invitation.new`, `save`, `consume`, `delete`,
--   `validate_input`.
-- - Registration: server/src/handlers/registration.rs, and `create_user` of
--   server/src/handlers/user.rs.
-- - Middleware: server/src/auth_middleware.rs (`extract_token`, `AuthUser`, `AdminUser`) and
--   server/src/browser_security.rs (`protect_browser_requests`).
-- - Settings: server/src/settings.rs, and the handlers of settings in server/src/handlers/admin.rs
--   (Settings/Update).
-- - State: the tables of the database together.
-- - RateLimit: server/src/rate_limit.rs: `check`, `record_failure`, `cleanup`.
-- - Session: server/src/user/auth/token.rs: revocation (Session), making, checking, consuming and
--   rotating tokens (Session/Tokens), and the browsers' rotation (Session/Browser).
-- - Totp: server/src/user/auth/totp.rs: codes (Totp) and their tables (Totp/Table); and `enforce_mfa`
--   of server/src/handlers/auth.rs (Totp/Login).
-- - Login: server/src/handlers/auth.rs: the logins, the refresh of a token, the logouts.
-- - Forward: server/src/handlers/auth.rs: `normalize_policy_path` (Forward/Path), `ForwardTarget`
--   (Forward/Target), `verify_auth` (Forward/Verify), the start, the redirect and the callback of a
--   login at another origin (Forward/Flow); and server/src/user/auth/forward.rs (Forward/Handoff).
-- - Oidc: server/src/oidc/codes.rs (Oidc/Codes): `issue`, `consume`, `sweep_expired`,
--   `verify_pkce_s256`; and server/src/oidc/token.rs (Oidc/Token).
-- - Oauth: server/src/handlers/oauth.rs: `authorize` (Oauth/Authorize), `token` (Oauth/Exchange),
--   `userinfo` (Oauth/UserInfo), the end of a session (Oauth/Logout, Oauth/Html).
-- - Ldap: server/src/ldap: the checks of a BER frame (Ldap/Ber), names (Ldap/Dn), entries
--   (Ldap/Entry), filters (Ldap/Filter), `handle_search` (Ldap/Search) and `handle_bind` (Ldap/Bind).
--
-- Conventions. Ids are numbers, texts are lists of bytes, times count seconds since the epoch (the
-- rate limiter's nanoseconds) and are not negative. A statement of the database is atomic; a request
-- is a function from the tables it finds to its result and the tables it leaves, and where requests
-- interleave between statements the statements are steps of their own. A request reads the clock
-- once, and the clock, fresh ids and other random values are arguments. Of a message that is built
-- with `format!` the constant part is kept.
--
-- The crates (regex, url, uuid, urlencoding, base64, http, jsonwebtoken, argon2, sha2, hmac, aes-gcm)
-- are parameters: a function, or a record called `Crates` in the module that needs it. What a theorem
-- relies on of them is among its hypotheses.
--
-- Bounds. The counters of the rate limiter wrap at 32 bits, written out. `normalize_policy_path`
-- decodes for 5 rounds, and the browsers' rotation follows 16 replacements, as the source does. The
-- walk over a BER frame is on fuel, twice the frame's bytes and one: a value has two bytes at least
-- and takes two rounds at most. A number is printed in as many rounds as itself and one, which is more
-- than it has digits. The other loops are structural.
--
-- Not modelled: the failure of a connection to the database, logging, audit records and their export;
-- the connections of the LDAP server; the handlers that only check who asks and call an operation
-- that is modelled, passkeys, the command line, static files and the storage of keys; the text of
-- HTML pages beyond their hidden fields; the web interface in ui and the scripts in deploy.
pub mod Base
pub mod Role
pub mod Application
pub mod Forward
pub mod RateLimit
pub mod Oidc
pub mod Session
pub mod Totp
pub mod Ldap
pub mod Http
pub mod Oauth
pub mod User
pub mod State
pub mod Login
pub mod Invitation
pub mod Middleware
pub mod Settings
pub mod Registration
