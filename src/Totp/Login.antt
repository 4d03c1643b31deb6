-- ===== src/Totp/Login.antt =====
-- server/src/handlers/auth.rs: `enforce_mfa`, the second factor of a login.
use authere.Base.{ℕ, not, Option, none, some, if◌then◌else◌, is_some, is_empty}
use authere.Base.Text.{Text}
use authere.Base.Errors.{AppError, Result, ok, err}
use authere.Totp.{UserTotp, Factors, Crates, decrypt_secret, verify_code}
use authere.Totp.Table.{get, consume_recovery_code, record_step}

-- `LoginError`
pub data LoginError : Type 0 where
  app : AppError → LoginError
  mfa_required mfa_invalid : LoginError

module _ (crates : Crates) where
  open crates use {trim}

  -- the second factor, given a code
  unfoldable pub check_factor :
      UserTotp → ℕ → Text → ℕ → Factors → Result (Unit {0}) LoginError × Factors
  check_factor row user_id code now factors = elim (decrypt_secret crates row.secret_encrypted) [
    | err e ↦ (err (app e), factors)
    | ok secret ↦ elim (verify_code crates secret code now row.last_used_step) [
      | some step ↦
          let (recorded, after) = record_step user_id row.secret_encrypted step now factors in
          (if recorded then ok tt else err mfa_invalid, after)
      | none ↦
          let (consumed, after) = consume_recovery_code crates user_id code now factors in
          (if consumed then ok tt else err mfa_invalid, after)
    ]
  ]

  -- `enforce_mfa`
  unfoldable pub enforce_mfa :
      ℕ → Option Text → ℕ → Factors → Result (Unit {0}) LoginError × Factors
  enforce_mfa user_id totp_code now factors = elim (get user_id factors) [
    | none ↦ (ok tt, factors)
    | some row ↦ if not (is_some row.activated_at) then (ok tt, factors) else elim totp_code [
      | none ↦ (err mfa_required, factors)
      | some given ↦
          if is_empty (trim given)
          then (err mfa_required, factors)
          else check_factor row user_id (trim given) now factors
    ]
  ]
