-- ===== src/User/AppPassword.antt =====
-- server/src/app_passwords.rs: the passwords of applications, over the rows of `app_passwords`. The
-- random cleartext, the salt, the id and the clock are arguments.
use authere.Base.{
  ℕ, Bool, true, ◌&&◌, Option, none, some, String, List, [], ◌∷◌, length, ltb, ◌==◌, if◌then◌else◌,
  is_some,
}
use authere.Base.Text.{Text}
use authere.Base.Rows.{find, update_where, delete_where, count_where}
use authere.Base.Errors.{AppError, input_error, internal_error, from_sqlx, Result, ok, err}
use authere.Http.{trim}
use authere.User.Password.{Argon}

-- a row of `app_passwords`
pub record AppPassword : Type 0 where
  pub id : ℕ
  pub user_id : ℕ
  pub name : Text
  pub password_hash : Text
  pub created_at : ℕ
  pub last_used_at : Option ℕ

-- `validate_name`
unfoldable pub validate_app_name : Text → Result (Unit {0}) String
validate_app_name name =
    if ltb (length (trim name)) 1
    then err "Name cannot be empty"
    else if ltb 64 (length (trim name))
    then err "Name must be 64 characters or fewer"
    else ok tt

unfoldable pub app_row : ℕ → ℕ → ℕ → Text → Text → AppPassword
app_row id now user_id name hash = record {
  id = id;
  user_id = user_id;
  name = trim name;
  password_hash = hash;
  created_at = now;
  last_used_at = none;
}

abbrev pub is_own : ℕ → ℕ → AppPassword → Bool
is_own id user_id row = row.id == id && row.user_id == user_id

-- `delete_for_user`
unfoldable pub delete_for_user : ℕ → ℕ → List AppPassword → Bool × List AppPassword
delete_for_user id user_id rows =
    (ltb 0 (count_where (is_own id user_id) rows), delete_where (is_own id user_id) rows)

module _ (argon : Argon) where
  open argon use {hash_password, verify}

  -- `create`
  unfoldable pub create_app_password :
      ℕ
      → ℕ
      → Text
      → Text
      → ℕ
      → Text
      → List AppPassword
      → Result (AppPassword × Text) AppError × List AppPassword
  create_app_password id now salt cleartext user_id name rows = elim (validate_app_name name) [
    | err e ↦ (err (input_error (e ∷ [])), rows)
    | ok _ ↦ elim (hash_password salt cleartext) [
      | none ↦ (err (internal_error "Failed to hash password"), rows)
      | some hash ↦
          if is_some (find (λ (row : AppPassword). row.id == id) rows)
          then (err (from_sqlx true ""), rows)
          else (
            ok (app_row id now user_id name hash, cleartext),
            app_row id now user_id name hash ∷ rows,
          )
    ]
  ]

  -- a row that the loop of `verify_for_user` stops at
  abbrev pub is_verified : ℕ → Text → AppPassword → Bool
  is_verified user_id cleartext row = row.user_id == user_id && verify row.password_hash cleartext

  -- `verify_for_user`
  unfoldable pub verify_for_user : ℕ → ℕ → Text → List AppPassword → Option ℕ × List AppPassword
  verify_for_user now user_id cleartext rows = elim (find (is_verified user_id cleartext) rows) [
    | none ↦ (none, rows)
    | some row ↦ (
      some row.id,
      update_where (λ (r : AppPassword). r.id == row.id) (λ r. record r { last_used_at = some now })
          rows,
    )
  ]
