-- ===== src/Totp/Table.antt =====
-- server/src/user/auth/totp.rs: the tables of second factors and recovery codes.
use authere.Base.{
  ℕ, Bool, true, not, ◌&&◌, Option, none, some, List, [], ◌∷◌, ◌==◌, ltb, if◌then◌else◌, is_some,
}
use authere.Base.Text.{Text, same}
use authere.Base.Rows.{find, update_where, delete_where, count_where}
use authere.Base.Errors.{AppError, unique_error, from_sqlx, Result, ok, err}
use authere.Totp.{
  UserTotp, RecoveryCode, Factors, Crates, of_totp, of_recovery, is_used, hash_recovery_code,
}

-- `get(user_id)`
unfoldable pub get : ℕ → Factors → Option UserTotp
get user_id factors = find (of_totp user_id) factors.totps

module _ (crates : Crates) where
  abbrev pub is_unused : ℕ → Text → RecoveryCode → Bool
  is_unused user_id hash row =
      row.user_id == user_id && same row.code_hash hash && not (is_some row.used_at)

  -- `consume_recovery_code`
  unfoldable pub consume_recovery_code : ℕ → Text → ℕ → Factors → Bool × Factors
  consume_recovery_code user_id code now factors =
      let unused = is_unused user_id (hash_recovery_code crates code) in
      (
        ltb 0 (count_where unused factors.recovery_codes),
        record factors {
          recovery_codes =
              update_where unused (λ row. record row { used_at = some now }) factors.recovery_codes;
        },
      )

  -- the inserts, whose hashes are unique in the table
  unfoldable pub insert_codes :
      ℕ → ℕ → List Text → List RecoveryCode → Result (Unit {0}) AppError × List RecoveryCode
  insert_codes user_id now [] rows = (ok tt, rows)
  insert_codes user_id now (code ∷ plaintext_codes) rows =
      let row : RecoveryCode = record {
        user_id = user_id;
        code_hash = hash_recovery_code crates code;
        used_at = none;
        created_at = now;
      } in
      let rest = insert_codes user_id now plaintext_codes (row ∷ rows) in
      if is_some (find (λ (r : RecoveryCode). same r.code_hash row.code_hash) rows)
      then (err (from_sqlx true ""), rows)
      else rest

  -- `store_recovery_codes`
  unfoldable pub store_recovery_codes :
      ℕ → ℕ → List Text → Factors → Result (Unit {0}) AppError × Factors
  store_recovery_codes user_id now plaintext_codes factors =
      let (stored, rows) =
        insert_codes user_id now plaintext_codes
          (delete_where (of_recovery user_id) factors.recovery_codes) in
      (stored, record factors { recovery_codes = rows })

-- `INSERT … ON CONFLICT(user_id) DO UPDATE … WHERE activated_at IS NULL`, and its `rows_affected()`
unfoldable pub upsert_totp : ℕ → Text → ℕ → List UserTotp → ℕ × List UserTotp
upsert_totp user_id secret_encrypted now rows =
    let pending = λ (row : UserTotp). of_totp user_id row && not (is_some row.activated_at) in
    if is_some (find (of_totp user_id) rows)
    then (
      count_where pending rows,
      update_where pending
          (λ row. record row {
            secret_encrypted = secret_encrypted;
            last_used_step = none;
            activated_at = none;
            updated_at = now;
          })
          rows,
    )
    else (
      1,
      record {
        user_id = user_id;
        secret_encrypted = secret_encrypted;
        last_used_step = none;
        activated_at = none;
        created_at = now;
        updated_at = now;
      }
          ∷ rows,
    )

-- `upsert_pending`, one transaction
unfoldable pub upsert_pending : ℕ → Text → ℕ → Factors → Result (Unit {0}) AppError × Factors
upsert_pending user_id secret_encrypted now factors =
    let (n, totps) = upsert_totp user_id secret_encrypted now factors.totps in
    if not (n == 1)
    then (err (unique_error "TOTP is already enabled. Disable it first to re-enroll."), factors)
    else (
      ok tt,
      record {
        totps = totps;
        recovery_codes = delete_where (of_recovery user_id) factors.recovery_codes;
      },
    )

abbrev is_pending : ℕ → Text → UserTotp → Bool
is_pending user_id secret row =
    row.user_id == user_id && same row.secret_encrypted secret && not (is_some row.activated_at)

-- `activate`
unfoldable pub activate : ℕ → Text → ℕ → ℕ → Factors → Bool × Factors
activate user_id secret_encrypted step now factors = (
  count_where (is_pending user_id secret_encrypted) factors.totps == 1,
  record factors {
    totps =
        update_where (is_pending user_id secret_encrypted)
          (λ row. record row {
            activated_at = some now;
            last_used_step = some step;
            updated_at = now;
          })
          factors.totps;
  },
)

-- `last_used_step IS NULL OR last_used_step < ?`, of an active factor
abbrev pub is_before : ℕ → Text → ℕ → UserTotp → Bool
is_before user_id secret step row =
    row.user_id == user_id
    && same row.secret_encrypted secret
    && is_some row.activated_at
    && not (is_used step row.last_used_step)

-- `record_step`
unfoldable pub record_step : ℕ → Text → ℕ → ℕ → Factors → Bool × Factors
record_step user_id secret_encrypted step now factors = (
  count_where (is_before user_id secret_encrypted step) factors.totps == 1,
  record factors {
    totps =
        update_where (is_before user_id secret_encrypted step)
          (λ row. record row { last_used_step = some step; updated_at = now }) factors.totps;
  },
)

-- `delete`
unfoldable pub delete : ℕ → Factors → Bool × Factors
delete user_id factors = (
  ltb 0 (count_where (of_totp user_id) factors.totps),
  record {
    totps = delete_where (of_totp user_id) factors.totps;
    recovery_codes = delete_where (of_recovery user_id) factors.recovery_codes;
  },
)

-- `is_activated_for`
unfoldable pub is_activated_for : ℕ → Factors → Bool
is_activated_for user_id factors =
    ltb 0 (count_where (λ row. of_totp user_id row && is_some row.activated_at) factors.totps)
