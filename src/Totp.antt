-- ===== src/Totp.antt =====
-- server/src/user/auth/totp.rs: one-time codes and recovery codes; handlers/auth.rs: `enforce_mfa`.
-- HMAC-SHA1, SHA-256, AES-GCM with the server's key, hexadecimal decoding and the character classes
-- are parameters. `user_id` is the key of `user_totps`.
pub mod Table
pub mod Login
pub mod Code
pub mod Once
pub mod Factor
mod Examples
use authere.Base.{
  ℕ, suc, ◌+◌, ◌-◌, ◌*◌, ◌/◌, ◌%◌, Bool, true, false, not, ◌&&◌, ◌||◌, Option, none, some, List, [],
  ◌∷◌, ◌++◌, ◌==◌, leb, ltb, if◌then◌else◌, is_some, unwrap_or, all, length, get_elem?, is_empty,
}
use authere.Base.Text.{Text, same, is_ascii_digit}
use authere.Base.Rows.{find, update_where, delete_where, count_where}
use authere.Base.Errors.{AppError, unique_error, internal_error, from_sqlx, Result, ok, err}

-- `UserTotp`
pub record UserTotp : Type 0 where
  pub user_id : ℕ
  pub secret_encrypted : Text
  pub last_used_step : Option ℕ
  pub activated_at : Option ℕ
  pub created_at : ℕ
  pub updated_at : ℕ

-- a row of `totp_recovery_codes`
pub record RecoveryCode : Type 0 where
  pub user_id : ℕ
  pub code_hash : Text
  pub used_at : Option ℕ
  pub created_at : ℕ

pub record Factors : Type 0 where
  pub totps : List UserTotp
  pub recovery_codes : List RecoveryCode

-- The parameters. `mac secret counter` are the 20 bytes of HMAC-SHA1 of the counter.
pub record Crates : Type 0 where
  pub mac : Text → ℕ → Text
  pub trim : Text → Text
  pub chars : Text → List ℕ
  pub is_whitespace : ℕ → Bool
  pub to_uppercase : ℕ → Text
  pub sha256_hex : Text → Text
  pub hex_decode : Text → Option Text
  pub decrypt : Text → Text → Result Text AppError

abbrev pub of_totp : ℕ → UserTotp → Bool
of_totp user_id row = row.user_id == user_id

abbrev pub of_recovery : ℕ → RecoveryCode → Bool
of_recovery user_id row = row.user_id == user_id

-- the number that decimal digits spell
unfoldable pub parse_digits : ℕ → Text → ℕ
parse_digits n [] = n
parse_digits n (d ∷ digits) = parse_digits (n * 10 + (d - b'0')) digits

-- `step <= last`
unfoldable pub is_used : ℕ → Option ℕ → Bool
is_used step none = false
is_used step (some last) = leb step last

-- `current_step - 1`, `current_step` and `current_step + 1`, those that are not negative
unfoldable pub candidates : ℕ → List ℕ
candidates current =
    (if current == 0 then [] else (current - 1) ∷ []) ++ current ∷ (current + 1) ∷ []

module _ (crates : Crates) where
  open crates use {mac, trim, chars, is_whitespace, to_uppercase, sha256_hex, hex_decode, decrypt}

  -- `split_once(':')`; `before` is what stands before the colon
  unfoldable pub split_colon : Text → Text → Option (Text × Text)
  split_colon before [] = none
  split_colon before (c ∷ rest) =
      let later = split_colon (before ++ c ∷ []) rest in
      if c == b':' then some (before, rest) else later

  -- `decrypt_secret`
  unfoldable pub decrypt_secret : Text → Result Text AppError
  decrypt_secret blob = elim (split_colon [] blob) [
    | none ↦ err (internal_error "TOTP secret malformed")
    | some parts ↦ elim (hex_decode parts.0) [
      | none ↦ err (internal_error "TOTP secret nonce not hex")
      | some nonce ↦ elim (hex_decode parts.1) [
        | none ↦ err (internal_error "TOTP secret ciphertext not hex")
        | some ciphertext ↦
            if not (length nonce == 12)
            then err (internal_error "TOTP secret nonce wrong length")
            else decrypt nonce ciphertext
      ]
    ]
  ]

  -- `canonicalize_recovery_code`, on the characters of a code
  unfoldable pub canonicalize : List ℕ → Text
  canonicalize [] = []
  canonicalize (c ∷ rest) =
      let later = canonicalize rest in
      if not (is_whitespace c) && not (c == b'-') then to_uppercase c ++ later else later

  -- `hash_recovery_code`
  unfoldable pub hash_recovery_code : Text → Text
  hash_recovery_code code = sha256_hex (canonicalize (chars code))

  abbrev pub byte : Text → ℕ → ℕ
  byte bytes i = unwrap_or (get_elem? bytes i) 0

  -- `hotp`; the shifted bytes do not overlap, so `|` is a sum
  unfoldable pub hotp : Text → ℕ → ℕ
  hotp secret counter =
      let result = mac secret counter in
      let offset = byte result 19 % 16 in
      (byte result offset % 128 * 16777216
        + byte result (offset + 1) * 65536
        + byte result (offset + 2) * 256
        + byte result (offset + 3))
      % 1000000

  -- the loop of `verify_code`
  unfoldable pub first_match : Text → ℕ → Option ℕ → List ℕ → Option ℕ
  first_match secret code last_used_step [] = none
  first_match secret code last_used_step (step ∷ steps) =
      let later = first_match secret code last_used_step steps in
      if is_used step last_used_step
      then later
      else if hotp secret step == code
      then some step
      else later

  -- `verify_code`
  unfoldable pub verify_code : Text → Text → ℕ → Option ℕ → Option ℕ
  verify_code secret code_str now last_used_step =
      let trimmed = trim code_str in
      if not (length trimmed == 6) || not (all is_ascii_digit trimmed)
      then none
      else if leb 1000000 (parse_digits 0 trimmed)
      then none
      else first_match secret (parse_digits 0 trimmed) last_used_step (candidates (now / 30))
