-- ===== src/Totp/Factor.antt =====
-- When the second factor lets a login pass (`enforce_mfa` of server/src/handlers/auth.rs), and that
-- an enrollment never replaces an active factor (server/src/user/auth/totp.rs).
use authere.Base.{
  ℕ, ◌≤◌, ◌<◌, ◌≡◌, ◌⊎◌, refl, inl, inr, true, false, not, ◌&&◌, Option, none, some, is_some,
  is_empty, arith, Bool-cases, Option-cases,
}
use authere.Base.Text.{Text}
use authere.Base.Rows.{update_where, count_where, count_where-of_missed}
use authere.Base.Errors.{ok, Result-cases, is_ok}
use authere.Totp.{
  UserTotp, Factors, Crates, of_totp, decrypt_secret, verify_code, hash_recovery_code,
}
use authere.Totp.Once.{record_step_again, consume_recovery_code_twice}
use authere.Totp.Table.{
  is_before, is_unused, record_step, consume_recovery_code, upsert_totp, upsert_pending, get,
}
use authere.Totp.Login.{check_factor, enforce_mfa}

module _ (crates : Crates) where
  open crates use {trim}

  -- A code that is worth the second factor: a one-time code whose step is recorded, or a recovery
  -- code that is consumed.
  abbrev pub IsProof : UserTotp → ℕ → Text → ℕ → Factors → Type 0
  IsProof row user_id code now factors =
      (secret : Text) × (decrypt_secret crates row.secret_encrypted ≡ ok secret)
      × (((step : ℕ) × (verify_code crates secret code now row.last_used_step ≡ some step)
            × ((record_step user_id row.secret_encrypted step now factors).0 ≡ true))
          ⊎ (verify_code crates secret code now row.last_used_step ≡ none)
            × ((consume_recovery_code crates user_id code now factors).0 ≡ true))

  proved :
      (row : UserTotp) (user_id : ℕ) (code : Text) (now : ℕ) (factors : Factors)
      → (check_factor crates row user_id code now factors).0 ≡ ok tt
      → IsProof row user_id code now factors
  unfolding check_factor
  proved row user_id code now factors h =
      elim (Result-cases (decrypt_secret crates row.secret_encrypted)) [
        | inr (e, failed) ↦ ground arith
        | inl (secret, opened) ↦
            elim (Option-cases (verify_code crates secret code now row.last_used_step)) [
              | inr (step, verified) ↦
                  elim (Bool-cases (record_step user_id row.secret_encrypted step now factors).0) [
                    | inl recorded ↦ (secret, opened, inl (step, verified, recorded))
                    | inr lost ↦ ground arith
                  ]
              | inl wrong ↦
                  elim (Bool-cases (consume_recovery_code crates user_id code now factors).0) [
                    | inl consumed ↦ (secret, opened, inr (wrong, consumed))
                    | inr unknown ↦ ground arith
                  ]
            ]
      ]

  -- A user with an active factor passes only with a proof.
  pub enforce_mfa_proved :
      (user_id : ℕ) (totp_code : Option Text) (now : ℕ) (factors : Factors) (row : UserTotp)
      → get user_id factors ≡ some row
      → is_some row.activated_at ≡ true
      → (enforce_mfa crates user_id totp_code now factors).0 ≡ ok tt
      → (given : Text) × (totp_code ≡ some given)
        × (is_empty (trim given) ≡ false)
        × IsProof row user_id (trim given) now factors
  unfolding enforce_mfa
  enforce_mfa_proved user_id totp_code now factors row present active h =
      elim (Option-cases totp_code) [
        | inl missing ↦ ground arith
        | inr (given, e) ↦ elim (Bool-cases (is_empty (trim given))) [
          | inl blank ↦ ground arith
          | inr full ↦ (given, e, full, proved row user_id (trim given) now factors (ground arith))
        ]
      ]

  -- What a proof leaves. Of a one-time code the step is recorded, and no code of that step or of an
  -- earlier one can be recorded for the enrollment in what is left; of a recovery code the row is marked as
  -- used, and it cannot be consumed again. Nothing else is changed.
  pub data IsSpent (row : UserTotp) (user_id : ℕ) (code : Text) (now : ℕ) (factors after : Factors)
      : Type 0 where
    by_step :
        (secret : Text) (step : ℕ)
        → decrypt_secret crates row.secret_encrypted ≡ ok secret
        → verify_code crates secret code now row.last_used_step ≡ some step
        → count_where (is_before user_id row.secret_encrypted step) factors.totps ≡ 1
        → after ≡ record factors {
          totps =
              update_where
                (is_before user_id row.secret_encrypted step)
                (λ r. record r { last_used_step = some step; updated_at = now })
                factors.totps;
        }
        → ((other later : ℕ)
            → other ≤ step
            → (record_step user_id row.secret_encrypted other later after).0 ≡ false)
        → IsSpent row user_id code now factors after
    by_recovery :
        (secret : Text)
        → decrypt_secret crates row.secret_encrypted ≡ ok secret
        → verify_code crates secret code now row.last_used_step ≡ none
        → 0
          < count_where
              (is_unused crates user_id (hash_recovery_code crates code))
              factors.recovery_codes
        → after ≡ record factors {
          recovery_codes =
              update_where
                (is_unused crates user_id (hash_recovery_code crates code))
                (λ r. record r { used_at = some now })
                factors.recovery_codes;
        }
        → ((later : ℕ) → (consume_recovery_code crates user_id code later after).0 ≡ false)
        → IsSpent row user_id code now factors after

  check_factor-IsSpent :
      (row : UserTotp) (user_id : ℕ) (code : Text) (now : ℕ) (factors : Factors)
      → (check_factor crates row user_id code now factors).0 ≡ ok tt
      → IsSpent row user_id code now factors (check_factor crates row user_id code now factors).1
  unfolding check_factor record_step consume_recovery_code
  check_factor-IsSpent row user_id code now factors h =
      elim (Result-cases (decrypt_secret crates row.secret_encrypted)) [
        | inr (e, failed) ↦ ground arith
        | inl (secret, opened) ↦
            elim (Option-cases (verify_code crates secret code now row.last_used_step)) [
              | inr (step, verified) ↦
                  rw (check_factor, opened, verified)
                    (by_step secret step opened verified (ground arith) refl (λ other later le.
                      record_step_again user_id step other now later row.secret_encrypted factors
                        le))
              | inl wrong ↦
                  rw (check_factor, opened, wrong)
                    (by_recovery secret opened wrong (ground arith) refl (λ later.
                      consume_recovery_code_twice crates user_id now later code code factors refl))
            ]
      ]

  -- A user with an active factor passes only with a code that is not blank, and that is a one-time
  -- code or else a recovery code. The one-time code's step is recorded, and in the tables that the
  -- login leaves no code of that step or of an earlier one can be recorded for the enrollment; the
  -- recovery code is marked as used, and cannot be consumed in those tables. Nothing else of the
  -- factors is changed.
  pub enforce_mfa-IsProof :
      (user_id : ℕ) (totp_code : Option Text) (now : ℕ) (factors : Factors) (row : UserTotp)
      → get user_id factors ≡ some row
      → is_some row.activated_at ≡ true
      → (enforce_mfa crates user_id totp_code now factors).0 ≡ ok tt
      → (given : Text) × (totp_code ≡ some given)
        × (is_empty (trim given) ≡ false)
        × IsProof row user_id (trim given) now factors
        × IsSpent row user_id
            (trim given)
            now
            factors
            (enforce_mfa crates user_id totp_code now factors).1
  unfolding enforce_mfa
  enforce_mfa-IsProof user_id totp_code now factors row present active h =
      elim (Option-cases totp_code) [
        | inl missing ↦ ground arith
        | inr (given, e) ↦ elim (Bool-cases (is_empty (trim given))) [
          | inl blank ↦ ground arith
          | inr full ↦
              let passed : (check_factor crates row user_id (trim given) now factors).0 ≡ ok tt =
                ground arith in
              (
                given,
                e,
                full,
                proved row user_id (trim given) now factors passed,
                rw (enforce_mfa, present, active, e, full)
                    (check_factor-IsSpent row user_id (trim given) now factors passed),
              )
        ]
      ]

-- With one row for a user, a new enrollment of a user whose factor is active is refused and changes
-- neither the factor nor the recovery codes.
upsert_pending_active :
    (user_id : ℕ) (secret_encrypted : Text) (now : ℕ) (factors : Factors) (row : UserTotp)
    → count_where (of_totp user_id) factors.totps ≤ 1
    → get user_id factors ≡ some row
    → is_some row.activated_at ≡ true
    → (is_ok (upsert_pending user_id secret_encrypted now factors).0 ≡ false)
      × ((upsert_pending user_id secret_encrypted now factors).1 ≡ factors)
unfolding upsert_pending upsert_totp get
upsert_pending_active user_id secret_encrypted now factors row one present active =
    let none_pending =
      count_where-of_missed (of_totp user_id)
        (λ (r : UserTotp). of_totp user_id r && not (is_some r.activated_at)) factors.totps row
        (λ r h. ground arith) one present (ground arith) in
    (
      rw (upsert_pending, upsert_totp, present, none_pending) refl,
      rw (upsert_pending, upsert_totp, present, none_pending) refl,
    )
