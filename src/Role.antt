-- ===== src/Role.antt =====
-- server/src/role.rs: roles and their assignment to users, over the tables `roles` and
-- `user_roles`. The foreign keys and uniqueness constraints are those of
-- migrations/20260119_phase1_tokens_audit.sql; `users` holds the ids that the users table has.
pub mod Invariant
pub mod Builtin
pub mod Manage
mod Examples
use authere.Base.{
  ℕ, suc, Bool, true, false, not, ◌&&◌, ◌||◌, Option, none, some, String, List, [], ◌∷◌, ◌++◌, any,
  all, is_empty, is_some, length, ltb, ◌==◌, if◌then◌else◌,
}
use authere.Base.Text.{Text, codes, same}
use authere.Base.Rows.{find, delete_where, count_where}
use authere.Base.Errors.{AppError, unique_error, db_error, input_error, from_sqlx, Result, ok, err}

abbrev pub role_admin : Text
role_admin = codes "admin"

abbrev pub role_user : Text
role_user = codes "user"

pub record Role : Type 0 where
  pub id : ℕ
  pub name : Text
  pub description : Option Text

pub record CreateRoleInput : Type 0 where
  pub name : Text
  pub description : Option Text

-- A row of `user_roles`.
pub record Assignment : Type 0 where
  pub user_id : ℕ
  pub role_id : ℕ

pub record UserRole : Type 0 where
  pub user_id : ℕ
  pub role_id : ℕ
  pub role_name : Text

pub record Tables : Type 0 where
  pub users : List ℕ
  pub roles : List Role
  pub user_roles : List Assignment

abbrev pub has_id : ℕ → Role → Bool
has_id id r = r.id == id

abbrev pub has_name : Text → Role → Bool
has_name name r = same r.name name

abbrev pub is_pair : ℕ → ℕ → Assignment → Bool
is_pair user_id role_id a = a.user_id == user_id && a.role_id == role_id

abbrev pub of_role : ℕ → Assignment → Bool
of_role role_id a = a.role_id == role_id

-- `Role::new`, given the fresh id.
unfoldable pub new : ℕ → Text → Option Text → Role
new id name description = record { id = id; name = name; description = description }

-- `Role::get`, `get_by_name`
unfoldable pub get : ℕ → Tables → Option Role
get id db = find (has_id id) db.roles

unfoldable pub get_by_name : Text → Tables → Option Role
get_by_name name db = find (has_name name) db.roles

-- `save`: the ids and the names are unique.
unfoldable pub save : Role → Tables → Result (Unit {0}) AppError × Tables
save role db =
    if is_some (find (has_id role.id) db.roles) || is_some (find (has_name role.name) db.roles)
    then (err (from_sqlx true "UNIQUE constraint failed"), db)
    else (ok tt, record db { roles = role ∷ db.roles })

unfoldable pub is_builtin : Option Role → Bool
is_builtin none = false
is_builtin (some r) = same r.name role_admin || same r.name role_user

-- `Role::delete`
unfoldable pub delete : ℕ → Tables → Result Bool AppError × Tables
delete id db =
    if ltb 0 (count_where (of_role id) db.user_roles)
    then (err (input_error ("Cannot delete role: users have this role assigned" ∷ [])), db)
    else if is_builtin (get id db)
    then (err (input_error ("Cannot delete built-in roles (admin, user)" ∷ [])), db)
    else (
      ok (ltb 0 (count_where (has_id id) db.roles)),
      record db { roles = delete_where (has_id id) db.roles },
    )

-- `UserRole::get_for_user`: the join of the two tables, for one user.
unfoldable pub join_roles : ℕ → List Role → List Assignment → List UserRole
join_roles user_id roles [] = []
join_roles user_id roles (a ∷ rows) =
    let rest = join_roles user_id roles rows in
    if a.user_id == user_id
    then elim (find (has_id a.role_id) roles) [
      | none ↦ rest
      | some r ↦ record { user_id = a.user_id; role_id = a.role_id; role_name = r.name } ∷ rest
    ]
    else rest

unfoldable pub get_for_user : ℕ → Tables → List UserRole
unfolding join_roles
get_for_user user_id db = join_roles user_id db.roles db.user_roles

-- `UserRole::assign`
unfoldable pub assign : ℕ → ℕ → Tables → Result (Unit {0}) AppError × Tables
assign user_id role_id db =
    if ltb 0 (count_where (is_pair user_id role_id) db.user_roles)
    then (err (unique_error "Role already assigned to user"), db)
    else if any (λ u. u == user_id) db.users && is_some (find (has_id role_id) db.roles)
    then (
      ok tt,
      record db { user_roles = record { user_id = user_id; role_id = role_id } ∷ db.user_roles },
    )
    else (err (db_error "FOREIGN KEY constraint failed"), db)

-- `UserRole::remove`
unfoldable pub remove : ℕ → ℕ → Tables → Bool × Tables
remove user_id role_id db = (
  ltb 0 (count_where (is_pair user_id role_id) db.user_roles),
  record db { user_roles = delete_where (is_pair user_id role_id) db.user_roles },
)

-- `handlers/role.rs`: an administrator cannot drop a role of their own.
unfoldable pub ensure_not_self_role_removal : ℕ → ℕ → Result (Unit {0}) AppError
ensure_not_self_role_removal actor_id target_id =
    if actor_id == target_id
    then err
        (input_error ("You cannot remove roles from your own account. Ask another admin." ∷ []))
    else ok tt
