-- ===== src/User/Password.antt =====
-- server/src/user/auth/mod.rs: passwords; and `User::login`, `validate_create_input` of
-- server/src/user/mod.rs. Argon2 is a parameter: its hash of a password with a fresh salt, and
-- whether a stored hash is well formed and verifies a password.
use authere.Base.{
  ℕ, Bool, true, false, ◌&&◌, ◌||◌, Option, none, some, String, List, [], ◌∷◌, length, is_empty,
  ltb, ◌==◌, if◌then◌else◌,
}
use authere.Base.Text.{Text}
use authere.Base.Rows.{find, update_where}
use authere.Base.Errors.{
  AppError, authentication_required, input_error, internal_error, Result, ok, err,
}
use authere.User.{
  User, Users, CreateUserInput, IsMatch, errors, get_by_username, validate_username, validate_name,
  validate_email,
}

pub data AuthenticationScheme : Type 0 where
  password totp : Text → AuthenticationScheme

pub record Authenticator : Type 0 where
  pub id : ℕ
  pub scheme : AuthenticationScheme
  pub owner_id : ℕ

-- `verify hash cleartext`; `hash_password salt cleartext`
pub record Argon : Type 0 where
  pub hash_password : Text → Text → Option Text
  pub verify : Text → Text → Bool

-- `validate_password`
unfoldable pub validate_password : Text → Result (Unit {0}) String
validate_password cleartext =
    if ltb (length cleartext) 12 || ltb 512 (length cleartext)
    then err "Password must be between 12 and 512 characters"
    else ok tt

abbrev is_password : AuthenticationScheme → Bool
is_password (password _) = true
is_password (totp _) = false

abbrev pub is_password_of : ℕ → Authenticator → Bool
is_password_of owner_id a = a.owner_id == owner_id && is_password a.scheme

-- `get_password_for`
unfoldable pub get_password_for : User → List Authenticator → Option Authenticator
get_password_for user rows = find (is_password_of user.id) rows

module _ (argon : Argon) where
  open argon use {hash_password, verify}

  -- `verify_password`: whether it returns `Ok`
  unfoldable pub verify_password : Authenticator → Text → Bool
  verify_password a cleartext = elim a.scheme [
    | password hash ↦ verify hash cleartext
    | totp secret ↦ false
  ]

  -- `try_password_login`
  unfoldable pub try_password_login : User → Text → List Authenticator → Result (Unit {0}) AppError
  try_password_login user cleartext rows =
      if user.active
      then elim (get_password_for user rows) [
        | none ↦ err authentication_required
        | some a ↦ if verify_password a cleartext then ok tt else err authentication_required
      ]
      else err authentication_required

  -- `User::login`
  unfoldable pub login : Text → Text → Users → List Authenticator → Result User AppError
  login username cleartext users rows = elim (get_by_username username users) [
    | none ↦ err authentication_required
    | some user ↦ elim (try_password_login user cleartext rows) [
      | ok _ ↦ ok user
      | err _ ↦ err authentication_required
    ]
  ]

  -- `new_password`, given the fresh id and the salt
  unfoldable pub new_password : ℕ → Text → Text → ℕ → Option Authenticator
  new_password id salt cleartext owner_id = elim (hash_password salt cleartext) [
    | none ↦ none
    | some hash ↦ some (record { id = id; scheme = password hash; owner_id = owner_id })
  ]

  -- `update_password`
  unfoldable pub update_password :
      ℕ → Text → Text → List Authenticator → Result (Unit {0}) AppError × List Authenticator
  update_password user_id salt cleartext rows = elim (hash_password salt cleartext) [
    | none ↦ (err (internal_error "Failed to hash password"), rows)
    | some hash ↦ (
      ok tt,
      update_where (is_password_of user_id) (λ a. record a { scheme = password hash }) rows,
    )
  ]

-- `validate_create_input`
unfoldable pub validate_create_input : IsMatch → CreateUserInput → Result (Unit {0}) AppError
validate_create_input is_match input =
    let errs = errors (
      validate_username is_match input.username
      ∷ validate_name input.name
      ∷ validate_email is_match input.email
      ∷ validate_password input.password
      ∷ []) in
    if is_empty errs then ok tt else err (input_error errs)
