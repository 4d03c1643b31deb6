-- ===== src/Oidc/Codes.antt =====
-- server/src/oidc/codes.rs: authorization codes. The table `oidc_authorization_codes` is the list
-- of its rows, `code_hash` its primary key. The SHA-256 hash of a code and the S256 challenge of a
-- verifier are parameters; the random plaintext and the clock are arguments.
pub mod Pkce
pub mod Exchange
pub mod Replay
mod Examples
use authere.Base.{
  ℕ, ◌+◌, ◌-◌, ◌≡◌, Bool, true, false, not, ◌&&◌, ◌||◌, Option, none, some, List, [], ◌∷◌, min,
  ◌==◌, ltb, leb, if◌then◌else◌, is_some, unwrap_or, length, all,
}
use authere.Base.Text.{Text, codes, same, is_ascii_alphanumeric}
use authere.Base.Rows.{find, update_where, delete_where, count_where}
use authere.Base.Errors.{AppError, from_sqlx, Result, ok, err}

-- a row of `oidc_authorization_codes`
pub record Code : Type 0 where
  pub code_hash : Text
  pub application_id : ℕ
  pub user_id : ℕ
  pub redirect_uri : Text
  pub scope : Text
  pub nonce : Option Text
  pub code_challenge : Text
  pub code_challenge_method : Text
  pub auth_time : ℕ
  pub expires_at : ℕ
  pub consumed_at : Option ℕ
  pub session_version : Option ℕ
  pub session_exp : Option ℕ

abbrev pub Codes : Type 0
Codes = List Code

-- `ConsumedCode`
pub record ConsumedCode : Type 0 where
  pub application_id : ℕ
  pub user_id : ℕ
  pub redirect_uri : Text
  pub scope : Text
  pub nonce : Option Text
  pub code_challenge : Text
  pub code_challenge_method : Text
  pub auth_time : ℕ
  pub session_version : Option ℕ
  pub session_exp : Option ℕ

abbrev authorization_code_lifetime : ℕ
authorization_code_lifetime = 600

-- `i64::MAX`
abbrev pub max_i64 : ℕ
max_i64 = 9223372036854775807

-- What a caller of `issue` passes: the arguments but for the connection.
pub record Grant : Type 0 where
  pub application_id : ℕ
  pub user_id : ℕ
  pub redirect_uri : Text
  pub scope : Text
  pub nonce : Option Text
  pub code_challenge : Text
  pub code_challenge_method : Text
  pub auth_time : ℕ
  pub session_version : Option ℕ
  pub session_exp : Option ℕ

-- the parameters of `consume`, but for the code
pub record Claim : Type 0 where
  pub application_id : ℕ
  pub redirect_uri : Text
  pub code_verifier : Text

abbrev pub has_hash : Text → Code → Bool
has_hash hash row = same row.code_hash hash

-- `code_hash = ? AND consumed_at IS NULL AND expires_at > ?`
abbrev pub is_live : Text → ℕ → Code → Bool
is_live hash now row =
    same row.code_hash hash && not (is_some row.consumed_at) && ltb now row.expires_at

-- A byte of a verifier: unreserved in the sense of RFC 7636.
abbrev pub is_unreserved : ℕ → Bool
is_unreserved b = is_ascii_alphanumeric b || b == b'-' || b == b'.' || b == b'_' || b == b'~'

unfoldable pub expiry : ℕ → Option ℕ → ℕ
expiry now session_exp = min (unwrap_or session_exp max_i64) (now + authorization_code_lifetime)

unfoldable pub new_row : Text → ℕ → Grant → Code
new_row hash now grant = record {
  code_hash = hash;
  application_id = grant.application_id;
  user_id = grant.user_id;
  redirect_uri = grant.redirect_uri;
  scope = grant.scope;
  nonce = grant.nonce;
  code_challenge = grant.code_challenge;
  code_challenge_method = grant.code_challenge_method;
  auth_time = grant.auth_time;
  expires_at = expiry now grant.session_exp;
  consumed_at = none;
  session_version = grant.session_version;
  session_exp = grant.session_exp;
}

unfoldable pub consumed_code : Code → ConsumedCode
consumed_code row = record {
  application_id = row.application_id;
  user_id = row.user_id;
  redirect_uri = row.redirect_uri;
  scope = row.scope;
  nonce = row.nonce;
  code_challenge = row.code_challenge;
  code_challenge_method = row.code_challenge_method;
  auth_time = row.auth_time;
  session_version = row.session_version;
  session_exp = row.session_exp;
}

-- the guarded update, and what `consume` returns after it
unfoldable pub consume_update : Text → ℕ → Code → Codes → Option ConsumedCode × Codes
consume_update hash now row rows =
    let after = update_where (is_live hash now) (λ r. record r { consumed_at = some now }) rows in
    if not (count_where (is_live hash now) rows == 1)
    then (none, after)
    else (some (consumed_code row), after)

module _ (hash_code : Text → Text) where
  -- `issue`; an insert of a key that is there fails
  unfoldable pub issue : Text → ℕ → Grant → Codes → Result Text AppError × Codes
  issue plaintext now grant rows =
      let hash = hash_code plaintext in
      if is_some (find (has_hash hash) rows)
      then (err (from_sqlx true ""), rows)
      else (ok plaintext, new_row hash now grant ∷ rows)

module _ (challenge_of : Text → Text) where
  -- `verify_pkce_s256`
  unfoldable pub verify_pkce_s256 : Text → Text → Bool
  verify_pkce_s256 code_verifier code_challenge =
      if ltb (length code_verifier) 43 || ltb 128 (length code_verifier)
      then false
      else if not (all is_unreserved code_verifier)
      then false
      else same (challenge_of code_verifier) code_challenge

  -- the checks of `consume` on the row it has read
  unfoldable pub is_refused : ℕ → Claim → Code → Bool
  is_refused now claim row =
      is_some row.consumed_at
      || leb row.expires_at now
      || not (row.application_id == claim.application_id)
      || not (same row.redirect_uri claim.redirect_uri)
      || not (same row.code_challenge_method (codes "S256"))
      || not (verify_pkce_s256 claim.code_verifier row.code_challenge)

  -- `consume` up to its update: the row, if it passes
  unfoldable pub consume_read : Text → ℕ → Claim → Codes → Option Code
  consume_read hash now claim rows = elim (find (has_hash hash) rows) [
    | none ↦ none
    | some row ↦ if is_refused now claim row then none else some row
  ]

module _ (hash_code challenge_of : Text → Text) where
  -- `consume`
  unfoldable pub consume : Text → ℕ → Claim → Codes → Option ConsumedCode × Codes
  consume code now claim rows =
      let hash = hash_code code in
      elim (consume_read challenge_of hash now claim rows) [
        | none ↦ (none, rows)
        | some row ↦ consume_update hash now row rows
      ]

-- `sweep_expired`
unfoldable pub sweep_expired : ℕ → Codes → ℕ × Codes
sweep_expired now rows =
    let old = λ (row : Code). ltb (row.expires_at + 3600) now in
    (count_where old rows, delete_where old rows)
