-- ===== src/Role/Manage.antt =====
-- server/src/handlers/role.rs: how an administrator manages roles; and `Role::validate_input` of
-- server/src/role.rs. `char::is_alphanumeric` is a parameter: whether every character of a text is
-- alphanumeric, an underscore or a hyphen.
pub mod Admins
pub mod Handled
mod Examples
use authere.Base.{
  ℕ, Bool, true, false, not, ◌&&◌, ◌||◌, Option, none, some, List, [], ◌∷◌, ◌++◌, length, is_empty,
  is_some, ltb, leb, if◌then◌else◌, String,
}
use authere.Base.Text.{Text, same}
use authere.Base.Rows.{find, count_where}
use authere.Base.Errors.{AppError, not_found, input_error, Result, ok, err}
use authere.Session.{Store, of_account, revoke_user_access_tokens}
use authere.Role.{
  Role, CreateRoleInput, Assignment, Tables, has_id, role_admin, new, get, save, delete, assign,
  remove, ensure_not_self_role_removal,
}

abbrev complaint : Bool → String → List String
complaint true message = message ∷ []
complaint false message = []

abbrev is_long : Option Text → Bool
is_long none = false
is_long (some text) = ltb 256 (length text)

-- `Role::validate_input`
unfoldable pub validate_role : (Text → Bool) → CreateRoleInput → Result (Unit {0}) AppError
validate_role is_word input =
    let errors =
      complaint (is_empty input.name || ltb 64 (length input.name))
        "Role name must be between 1 and 64 characters"
      ++ complaint (not (is_word input.name))
          "Role name must contain only alphanumeric characters, underscores, and hyphens"
      ++ complaint (is_long input.description) "Role description must be 256 characters or less" in
    if is_empty errors then ok tt else err (input_error errors)

-- `create_role`, given the fresh id
unfoldable pub create_role :
    (Text → Bool) → ℕ → CreateRoleInput → Tables → Result Role AppError × Tables
create_role is_word id input db = elim (validate_role is_word input) [
  | err e ↦ (err e, db)
  | ok _ ↦
      let (saved, after) = save (new id input.name input.description) db in
      (elim saved [ err e ↦ err e | ok _ ↦ ok (new id input.name input.description) ], after)
]

abbrev or_not_found : Result Bool AppError → Result (Unit {0}) AppError
or_not_found (err e) = err e
or_not_found (ok true) = ok tt
or_not_found (ok false) = err not_found

-- `delete_role`
unfoldable pub delete_role : ℕ → Tables → Result (Unit {0}) AppError × Tables
delete_role id db = let (deleted, after) = delete id db in (or_not_found deleted, after)

-- whether an assignment is of the role `admin`
unfoldable pub is_admin_row : List Role → Assignment → Bool
is_admin_row roles a = elim (find (has_id a.role_id) roles) [
  | none ↦ false
  | some role ↦ same role.name role_admin
]

-- `admin_count`
unfoldable pub admin_count : Tables → ℕ
admin_count db = count_where (is_admin_row db.roles) db.user_roles

-- whether a role is the last administrator's
unfoldable pub is_last_admin : ℕ → Tables → Bool
is_last_admin role_id db = elim (get role_id db) [
  | none ↦ false
  | some role ↦ same role.name role_admin && leb (admin_count db) 1
]

abbrev pub with_tables : Store → Tables → Store
with_tables store tables = record store { tables = tables }

-- `assign_role`
unfoldable pub assign_role : ℕ → ℕ → ℕ → Store → Result (Unit {0}) AppError × Store
assign_role user_id role_id now store =
    if not (is_some (find (of_account user_id) store.accounts))
    then (err not_found, store)
    else if not (is_some (get role_id store.tables))
    then (err not_found, store)
    else let (assigned, tables) = assign user_id role_id store.tables in
      elim assigned [
        | err e ↦ (err e, with_tables store tables)
        | ok _ ↦ (ok tt, revoke_user_access_tokens user_id now (with_tables store tables))
      ]

-- `remove_role` after the check of the last administrator
unfoldable pub remove_checked : ℕ → ℕ → ℕ → Store → Result (Unit {0}) AppError × Store
remove_checked user_id role_id now store =
    let (removed, tables) = remove user_id role_id store.tables in
    if removed
    then (ok tt, revoke_user_access_tokens user_id now (with_tables store tables))
    else (err not_found, with_tables store tables)

-- `remove_role`
unfoldable pub remove_role : ℕ → ℕ → ℕ → ℕ → Store → Result (Unit {0}) AppError × Store
remove_role actor_id user_id role_id now store =
    elim (ensure_not_self_role_removal actor_id user_id) [
      | err e ↦ (err e, store)
      | ok _ ↦
          if is_last_admin role_id store.tables
          then (err (input_error ("Cannot remove the last admin role" ∷ [])), store)
          else remove_checked user_id role_id now store
    ]
