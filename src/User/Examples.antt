-- ===== src/User/Examples.antt =====
-- Ada, user 7, with a password and a password for an application; in the place of a hash stands the
-- password.
use authere.Base.{◌≡◌, refl, true, none, some, List, [], ◌∷◌}
use authere.Base.Text.{codes, same}
use authere.Base.Rows.{find, update_where, delete_where, count_where}
use authere.Base.Errors.{unique_error, authentication_required, input_error, ok, err}
use authere.Http.{white_len, trim_start_from, is_white, trim_end, trim}
use authere.User.{
  User, IsMatch, new, get_by_username, save, is_taken, set_active, delete, update, check_changes,
  check_given, changed, write_user, validate_name, validate_username, validate_email,
}
use authere.User.Password.{
  Argon, Authenticator, password, get_password_for, verify_password, try_password_login, login,
  update_password, validate_password, validate_create_input,
}
use authere.User.AppPassword.{
  AppPassword, validate_app_name, app_row, delete_for_user, create_app_password, verify_for_user,
}

users_unfold : Unit {0}
unfolding white_len trim_start_from is_white trim_end trim new get_by_username save is_taken
    set_active delete update check_changes check_given changed write_user validate_name
    validate_username validate_email get_password_for verify_password try_password_login login
    update_password validate_password validate_create_input validate_app_name app_row
    delete_for_user create_app_password verify_for_user find update_where delete_where count_where
    same
users_unfold = tt

abbrev argon : Argon
argon = record { hash_password = λ salt cleartext. some cleartext; verify = same }

abbrev is_match : IsMatch
is_match pattern text = true

abbrev ada : User
ada = record {
  id = 7;
  username = codes "ada";
  name = codes "Ada";
  email = none;
  active = true;
  created_at = 1;
  updated_at = 1;
}

abbrev rows : List Authenticator
rows = record { id = 1; scheme = password (codes "old"); owner_id = 7 } ∷ []

abbrev app_rows : List AppPassword
app_rows =
    record {
      id = 4;
      user_id = 7;
      name = codes "mail";
      password_hash = codes "p";
      created_at = 1;
      last_used_at = none;
    }
    ∷ []

user_tests :
    ((save (record ada { id = 8 }) (ada ∷ [])).0 ≡ err (unique_error "Username already taken"))
    × (login argon (codes "ada") (codes "old") (ada ∷ []) rows ≡ ok ada)
    × (login argon (codes "ada") (codes "new") (ada ∷ []) rows ≡ err authentication_required)
    × (validate_create_input is_match
          (record { username = codes "ad"; name = codes "Ada"; password = codes "x"; email = none })
        ≡ err (
            input_error (
              "Username must be between 3 and 64 characters"
              ∷ "Password must be between 12 and 512 characters" ∷ [])))
    × ((verify_for_user argon 9 7 (codes "p") app_rows).0 ≡ some 4)
unfolding users_unfold
user_tests = (refl, refl, refl, refl, refl)
