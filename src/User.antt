-- ===== src/User.antt =====
-- server/src/user/mod.rs: the users, over the rows of the table `users`, whose ids and usernames are
-- unique. The regex crate is a parameter: whether a pattern matches a text.
pub mod Password
pub mod AppPassword
pub mod Login
mod Examples
use authere.Base.{
  ℕ, Bool, true, false, not, ◌&&◌, ◌||◌, Option, none, some, String, List, [], ◌∷◌, length,
  is_empty, is_some, ltb, ◌==◌, if◌then◌else◌, unwrap_or,
}
use authere.Base.Text.{Text, codes, same}
use authere.Base.Rows.{find, update_where, delete_where, count_where}
use authere.Base.Errors.{AppError, unique_error, input_error, Result, ok, err, ◌>>◌}

pub record User : Type 0 where
  pub id : ℕ
  pub username : Text
  pub name : Text
  pub email : Option Text
  pub active : Bool
  pub created_at : ℕ
  pub updated_at : ℕ

pub record CreateUserInput : Type 0 where
  pub username : Text
  pub name : Text
  pub password : Text
  pub email : Option Text

abbrev pub Users : Type 0
Users = List User

-- `Regex::is_match`: the pattern, and the text.
abbrev pub IsMatch : Type 0
IsMatch = Text → Text → Bool

abbrev username_regex : Text
username_regex = codes "^[A-Za-z0-9.\\-_]*$"

abbrev email_regex : Text
email_regex = codes "^.+@.+\\..{2,}$"

abbrev pub has_id : ℕ → User → Bool
has_id id u = u.id == id

abbrev has_username : Text → User → Bool
has_username username u = same u.username username

-- `User::new`, given the fresh id and the time.
unfoldable pub new : ℕ → ℕ → Text → Text → Option Text → User
new id now username name email = record {
  id = id;
  username = username;
  name = name;
  email = email;
  active = true;
  created_at = now;
  updated_at = now;
}

-- `User::get`, `get_by_username`
unfoldable pub get : ℕ → Users → Option User
get id users = find (has_id id) users

unfoldable pub get_by_username : Text → Users → Option User
get_by_username username users = find (has_username username) users

unfoldable pub is_taken : User → Users → Bool
is_taken user users =
    is_some (find (λ (u : User). u.id == user.id) users)
    || is_some (find (λ (u : User). same u.username user.username) users)

-- `save`
unfoldable pub save : User → Users → Result (Unit {0}) AppError × Users
save user users =
    if is_taken user users
    then (err (unique_error "Username already taken"), users)
    else (ok tt, user ∷ users)

-- `validate_name`
unfoldable pub validate_name : Text → Result (Unit {0}) String
validate_name name =
    if ltb (length name) 3 || ltb 128 (length name)
    then err "Name must be between 3 and 128 characters"
    else ok tt

module _ (is_match : IsMatch) where
  -- `validate_username`
  unfoldable pub validate_username : Text → Result (Unit {0}) String
  validate_username username =
      if ltb (length username) 3 || ltb 64 (length username)
      then err "Username must be between 3 and 64 characters"
      else if not (is_match username_regex username)
      then err "Username must consist only of letters, numbers, and allowed symbols"
      else ok tt

  -- `validate_email`
  unfoldable pub validate_email : Option Text → Result (Unit {0}) String
  validate_email none = ok tt
  validate_email (some email) =
      if ltb 254 (length email)
      then err "Email must contain no more than 254 characters"
      else if is_match email_regex email
      then ok tt
      else err "Email is not valid"

-- `filter_map(Result::err)`
abbrev pub errors {ℓ κ} : {A : Type ℓ} {E : Type κ} → List (Result A E) → List E
errors [] = []
errors (ok a ∷ rs) = errors rs
errors (err e ∷ rs) = e ∷ errors rs

-- `map_err(|e| InputError(vec![e]))` on a field that may be given
unfoldable pub check_given {ℓ} :
    {A : Type ℓ} → (A → Result (Unit {0}) String) → Option A → Result (Unit {0}) AppError
check_given check none = ok tt
check_given check (some a) = elim (check a) [ ok _ ↦ ok tt | err e ↦ err (input_error (e ∷ [])) ]

-- the fields that an update gives
pub record Changes : Type 0 where
  pub name : Option Text
  pub email : Option (Option Text)
  pub username : Option Text

-- the user after `update` has set its fields
unfoldable pub changed : ℕ → Changes → User → User
changed now changes user = record user {
  name = unwrap_or changes.name user.name;
  email = unwrap_or changes.email user.email;
  username = unwrap_or changes.username user.username;
  updated_at = now;
}

-- the row that the UPDATE of `update` writes
abbrev write_profile : User → User → User
write_profile user row = record row {
  name = user.name;
  email = user.email;
  username = user.username;
  updated_at = user.updated_at;
}

-- another row with the username
abbrev is_rival : User → User → Bool
is_rival user row = not (row.id == user.id) && same row.username user.username

-- the UPDATE of `update`; usernames are unique
unfoldable pub write_user : User → Users → Result (Unit {0}) AppError × Users
write_user user users =
    if is_some (find (has_id user.id) users) && is_some (find (is_rival user) users)
    then (err (unique_error "Username already taken"), users)
    else (ok tt, update_where (has_id user.id) (write_profile user) users)

-- the checks of `update`
unfoldable pub check_changes : IsMatch → Changes → Result (Unit {0}) AppError
check_changes is_match changes =
    check_given validate_name changes.name
    >> check_given (validate_email is_match) changes.email
    >> check_given (validate_username is_match) changes.username

-- `update`: the result, the user, and the rows
unfoldable pub update :
    IsMatch → ℕ → Changes → User → Users → Result (Unit {0}) AppError × User × Users
update is_match now changes user users = elim (check_changes is_match changes) [
  | err e ↦ (err e, user, users)
  | ok _ ↦
      let (written, after) = write_user (changed now changes user) users in
      (written, changed now changes user, after)
]

abbrev same_state : Bool → Bool → Bool
same_state true b = b
same_state false b = not b

-- `set_active`: whether the state changed, the user, and the rows
unfoldable pub set_active : ℕ → Bool → User → Users → Bool × User × Users
set_active now active user users = if same_state user.active active then (false, user, users) else (
  true,
  record user { active = active; updated_at = now },
  update_where (has_id user.id) (λ row. record row { active = active; updated_at = now }) users,
)

-- `User::delete`
unfoldable pub delete : ℕ → Users → Bool × Users
delete id users = (count_where (has_id id) users == 1, delete_where (has_id id) users)
