-- ===== src/Totp/Once.antt =====
-- No second factor works twice (server/src/user/auth/totp.rs), whatever the requests have read.
use authere.Base.{
  ℕ, ◌≤◌, ◌<◌, ◌≡◌, refl, inl, inr, true, false, some, leb, arith, Bool-cases, Option-cases,
}
use authere.Base.Text.{Text}
use authere.Base.Rows.{count-update_where_zero}
use authere.Totp.{UserTotp, Factors, Crates, is_used, hash_recovery_code}
use authere.Totp.Table.{is_before, is_unused, record_step, consume_recovery_code}

earlier_used :
    (user_id step other : ℕ) (secret : Text) (row : UserTotp)
    → other ≤ step
    → is_before user_id secret step row ≡ false
    → is_before user_id secret other row ≡ false
unfolding is_used
earlier_used user_id step other secret row le h = elim (Option-cases row.last_used_step) [
  | inl fresh ↦ ground arith
  | inr (last, used) ↦ ground arith
]

later_used :
    (user_id step other now : ℕ) (secret : Text) (row : UserTotp)
    → other ≤ step
    → is_before user_id secret other (record row { last_used_step = some step; updated_at = now })
      ≡ false
unfolding is_used
later_used user_id step other now secret row le = ground arith

-- A step that is not later than one that has been recorded cannot be recorded.
pub record_step_again :
    (user_id step other now later : ℕ) (secret : Text) (factors : Factors)
    → other ≤ step
    → (record_step user_id secret other later (record_step user_id secret step now factors).1).0
      ≡ false
unfolding record_step
record_step_again user_id step other now later secret factors le =
    let none_left =
      count-update_where_zero (is_before user_id secret step) (is_before user_id secret other)
        (λ row. record row { last_used_step = some step; updated_at = now }) factors.totps
        (λ r h. later_used user_id step other now secret r le)
        (λ r h. earlier_used user_id step other secret r le h) in
    rw (record_step, none_left) refl

-- Of two recordings for one enrollment that both succeed, the second is of a later step, so a code
-- that two requests have verified is accepted once.
pub record_step_increases :
    (user_id step other now later : ℕ) (secret : Text) (factors : Factors)
    → (record_step user_id secret step now factors).0 ≡ true
    → (record_step user_id secret other later (record_step user_id secret step now factors).1).0
      ≡ true
    → step < other
unfolding record_step is_used
record_step_increases user_id step other now later secret factors first second =
    elim (Bool-cases (leb other step)) [
      | inr more ↦ ground arith
      | inl no_more ↦
          let again =
            record_step_again user_id step other now later secret factors (ground arith) in
          cc
    ]

module _ (crates : Crates) where
  -- A recovery code that has been consumed is not accepted again, however it is written.
  pub consume_recovery_code_twice :
      (user_id now later : ℕ) (code again : Text) (factors : Factors)
      → hash_recovery_code crates again ≡ hash_recovery_code crates code
      → (consume_recovery_code crates user_id again later
          (consume_recovery_code crates user_id code now factors).1).0
        ≡ false
  unfolding consume_recovery_code
  consume_recovery_code_twice user_id now later code again factors same_hash =
      let none_left =
        count-update_where_zero (is_unused crates user_id (hash_recovery_code crates code))
          (is_unused crates user_id (hash_recovery_code crates code))
          (λ row. record row { used_at = some now }) factors.recovery_codes (λ r h. ground arith)
          (λ r h. h) in
      rw same_hash (ground arith)
