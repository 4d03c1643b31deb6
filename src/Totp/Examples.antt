-- ===== src/Totp/Examples.antt =====
-- A user with an active factor (server/src/user/auth/totp.rs). In the place of HMAC stands a code
-- that spells the step.
use authere.Base.{◌/◌, ◌%◌, ◌<◌, ◌≡◌, refl, false, none, some, [], ◌∷◌, ◌==◌, is_empty}
use authere.Base.Text.{Text, codes, same}
use authere.Base.Rows.{find, update_where, delete_where, count_where}
use authere.Base.Errors.{ok, err}
use authere.Totp.{
  UserTotp, Factors, Crates, parse_digits, is_used, candidates, hotp, first_match, verify_code,
  split_colon, decrypt_secret, canonicalize, hash_recovery_code,
}
use authere.Totp.Table.{
  get, consume_recovery_code, insert_codes, store_recovery_codes, upsert_totp, upsert_pending,
  activate, record_step, delete, is_activated_for,
}
use authere.Totp.Login.{mfa_required, mfa_invalid, check_factor, enforce_mfa}
use authere.Totp.Once.{record_step_increases}
use authere.Totp.Factor.{IsProof, IsSpent, enforce_mfa-IsProof}

factors_table : Unit {0}
unfolding parse_digits get is_used candidates hotp first_match verify_code split_colon
    decrypt_secret canonicalize hash_recovery_code consume_recovery_code insert_codes
    store_recovery_codes upsert_totp upsert_pending activate record_step delete is_activated_for
    check_factor enforce_mfa find update_where delete_where count_where same
factors_table = tt

abbrev crates : Crates
crates = record {
  mac = λ secret counter.
      0
      ∷ 0
      ∷ (counter / 256)
      ∷ (counter % 256)
      ∷ 0
      ∷ 0
      ∷ 0
      ∷ 0
      ∷ 0
      ∷ 0
      ∷ 0
      ∷ 0
      ∷ 0
      ∷ 0
      ∷ 0
      ∷ 0
      ∷ 0
      ∷ 0
      ∷ 0
      ∷ 0
      ∷ [];
  trim = λ text. text;
  chars = λ text. text;
  is_whitespace = λ c. c == 32;
  to_uppercase = λ c. c ∷ [];
  sha256_hex = λ text. text;
  hex_decode = λ text. some text;
  decrypt = λ nonce text. ok text;
}

abbrev blob : Text
blob = codes "abcdefghijkl:key"

abbrev active_row : UserTotp
active_row = record {
  user_id = 7;
  secret_encrypted = blob;
  last_used_step = some 39;
  activated_at = some 100;
  created_at = 90;
  updated_at = 100;
}

abbrev factors : Factors
factors = record {
  totps = active_row ∷ [];
  recovery_codes =
      record { user_id = 7; code_hash = codes "AB"; used_at = none; created_at = 100 } ∷ [];
}

enforce_tests :
    ((enforce_mfa crates 7 (some (codes "000040")) 1200 factors).0 ≡ ok tt)
    × ((enforce_mfa crates 7
          (some (codes "000040"))
          1210
          (enforce_mfa crates 7 (some (codes "000040")) 1200 factors).1).0
        ≡ err mfa_invalid)
    × ((enforce_mfa crates 7 (some (codes "A-B")) 1200 factors).0 ≡ ok tt)
    × ((enforce_mfa crates 7 none 1200 factors).0 ≡ err mfa_required)
    × ((enforce_mfa crates 8 none 1200 factors).0 ≡ ok tt)
unfolding factors_table
enforce_tests = (refl, refl, refl, refl, refl)

record_step_increases_example : 40 < 41
unfolding factors_table
record_step_increases_example = record_step_increases 7 40 41 1200 1230 blob factors refl refl

enforce_mfa-IsProof_example :
    (given : Text) × (some (codes "000040") ≡ some given)
    × (is_empty given ≡ false)
    × IsProof crates active_row 7 given 1200 factors
    × IsSpent crates active_row 7 given 1200 factors
        (enforce_mfa crates 7 (some (codes "000040")) 1200 factors).1
unfolding factors_table
enforce_mfa-IsProof_example =
    enforce_mfa-IsProof crates 7 (some (codes "000040")) 1200 factors active_row refl refl refl
