-- ===== src/Session.antt =====
-- server/src/user/auth/token.rs: the sessions of users: their claims, generations and revocation.
-- Tables are lists of rows, each statement atomic; a request reads the clock once. Signing and
-- reading a JWT, hashing, encryption and the text of an id are parameters.
pub mod Tokens
pub mod Browser
pub mod Verified
pub mod Access
pub mod Rotation
pub mod Later
pub mod Dead
pub mod Steps
pub mod Pair
pub mod Replay
mod Examples
use authere.Base.{
  ℕ, ◌+◌, Bool, true, false, not, ◌&&◌, ◌||◌, Option, none, some, List, [], ◌∷◌, map, ◌==◌, leb,
  ltb, if◌then◌else◌, is_some,
}
use authere.Base.Text.{Text, codes, same}
use authere.Base.Rows.{find, update_where, delete_where, count_where}
use authere.Base.Errors.{AppError, authentication_required, Result, ok, err}
use authere.Role.{Tables}

-- `Claims`
pub record Claims : Type 0 where
  pub sub : Text
  pub iss : Text
  pub aud : Text
  pub roles : List Text
  pub exp : ℕ
  pub iat : ℕ
  pub jti : Text
  pub typ : Text
  pub session_exp : Option ℕ
  pub session_version : Option ℕ
  pub auth_time : Option ℕ

-- `TokenPair`
pub record TokenPair : Type 0 where
  pub access_token : Text
  pub refresh_token : Text
  pub expires_in : ℕ
  pub refresh_expires_in : ℕ
  pub token_type : Text

-- a row of `refresh_tokens` (`RefreshTokenRecord`, and the columns for browser retries)
pub record RefreshToken : Type 0 where
  pub id : ℕ
  pub user_id : ℕ
  pub token_hash : Text
  pub expires_at : ℕ
  pub created_at : ℕ
  pub revoked_at : Option ℕ
  pub browser_retry_until : Option ℕ
  pub browser_retry_pair : Option Text

-- the columns of `users` that sessions read
pub record Account : Type 0 where
  pub id : ℕ
  pub active : Bool
  pub token_version : ℕ

-- a row of `user_access_revocations`
pub record Revocation : Type 0 where
  pub user_id : ℕ
  pub revoked_before : ℕ

-- a row of `forward_handoffs`
pub record HandoffRow : Type 0 where
  pub id : Text
  pub user_id : ℕ
  pub expires_at : ℕ

pub record Store : Type 0 where
  pub accounts : List Account
  pub tables : Tables
  pub refresh_tokens : List RefreshToken
  pub revocations : List Revocation
  pub handoffs : List HandoffRow

-- The parameters. `decode now` checks the signature, the issuer, the audience, the claims that are
-- required and the expiry; `seal` and `unseal` encrypt a pair for a browser's retry.
pub record Crates : Type 0 where
  pub encode : Claims → Option Text
  pub decode : ℕ → Text → Option Claims
  pub hash_token : Text → Text
  pub parse_uuid : Text → Option ℕ
  pub show_uuid : ℕ → Text
  pub seal : TokenPair → Option Text
  pub unseal : Text → Option TokenPair

abbrev pub of_account : ℕ → Account → Bool
of_account id a = a.id == id

-- `id = ? AND active = 1`
abbrev pub is_active_account : ℕ → Account → Bool
is_active_account id a = a.id == id && a.active

abbrev pub of_user : ℕ → Revocation → Bool
of_user id r = r.user_id == id

-- `user_session_version`
unfoldable pub user_session_version : ℕ → Store → Result ℕ AppError
user_session_version id store = elim (find (is_active_account id) store.accounts) [
  | none ↦ err authentication_required
  | some account ↦ ok account.token_version
]

-- the check of a session from before there were generations
unfoldable pub verify_legacy : ℕ → ℕ → ℕ → Store → Result (Unit {0}) AppError
verify_legacy id issued_at current store =
    if not (current == 0)
    then err authentication_required
    else elim (find (of_user id) store.revocations) [
      | none ↦ ok tt
      | some r ↦ if leb issued_at r.revoked_before then err authentication_required else ok tt
    ]

-- `verify_user_session`
unfoldable pub verify_user_session : ℕ → ℕ → Option ℕ → Store → Result (Unit {0}) AppError
verify_user_session id issued_at session_version store = elim (user_session_version id store) [
  | err e ↦ err e
  | ok current ↦ elim session_version [
    | some version ↦ if version == current then ok tt else err authentication_required
    | none ↦ verify_legacy id issued_at current store
  ]
]

-- `INSERT … ON CONFLICT(user_id) DO UPDATE`
unfoldable pub upsert_revocation : ℕ → ℕ → List Revocation → List Revocation
upsert_revocation id now rows =
    if is_some (find (of_user id) rows)
    then update_where (of_user id) (λ r. record r { revoked_before = now }) rows
    else record { user_id = id; revoked_before = now } ∷ rows

-- `revoke_user_access_tokens`
unfoldable pub revoke_user_access_tokens : ℕ → ℕ → Store → Store
revoke_user_access_tokens id now store = record store {
  accounts =
      update_where (of_account id) (λ a. record a { token_version = a.token_version + 1 })
        store.accounts;
  revocations = upsert_revocation id now store.revocations;
}

abbrev pub is_open : ℕ → RefreshToken → Bool
is_open id row = row.user_id == id && not (is_some row.revoked_at)

-- `revoke_all_user_tokens`
unfoldable pub revoke_all_user_tokens : ℕ → ℕ → Store → Store
revoke_all_user_tokens id now store = revoke_user_access_tokens id now (record store {
  refresh_tokens =
      update_where (is_open id) (λ row. record row { revoked_at = some now }) store.refresh_tokens;
})

-- `browser_retry_until <= ? AND browser_retry_pair IS NOT NULL`
abbrev pub retry_is_over : ℕ → RefreshToken → Bool
retry_is_over now row =
    elim row.browser_retry_until [ none ↦ false | some until ↦ leb until now ]
    && is_some row.browser_retry_pair

-- `sweep_expired_sessions`
unfoldable pub sweep_expired_sessions : ℕ → Store → Store
sweep_expired_sessions now store = record store {
  refresh_tokens =
      delete_where (λ row. leb row.expires_at now)
        (update_where (retry_is_over now) (λ row. record row { browser_retry_pair = none })
          store.refresh_tokens);
  handoffs = delete_where (λ row. leb row.expires_at now) store.handoffs;
}
