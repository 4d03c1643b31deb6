-- ===== src/Role/Manage/Examples.antt =====
-- Two administrators, and requests to remove roles (server/src/handlers/role.rs).
use authere.Base.{ℕ, ◌≡◌, refl, true, false, none, List, [], ◌∷◌, arith}
use authere.Base.Text.{codes, same}
use authere.Base.Rows.{find, delete_where, count_where, update_where}
use authere.Base.Errors.{not_found, err}
use authere.Session.{Store, revoke_user_access_tokens, upsert_revocation}
use authere.Role.{
  Tables, new, get, save, delete, assign, remove, is_builtin, ensure_not_self_role_removal,
}
use authere.Role.Invariant.{
  Operation, saves, run, perform, run-IsConsistent, no_roles, no_roles-IsConsistent,
}
use authere.Role.Manage.{
  validate_role, create_role, delete_role, is_admin_row, admin_count, is_last_admin, assign_role,
  remove_checked, remove_role,
}
use authere.Role.Manage.Handled.{
  IsManaged, Request, deletes, removes, handle, handle_all, handle_all-IsManaged,
}

manage : Unit {0}
unfolding same find delete_where count_where update_where revoke_user_access_tokens
    upsert_revocation new get save delete assign remove is_builtin ensure_not_self_role_removal run
    perform validate_role create_role delete_role is_admin_row admin_count is_last_admin assign_role
    remove_checked remove_role handle handle_all
manage = tt

abbrev users : List ℕ
users = 7 ∷ 8 ∷ []

abbrev history : List Operation
history = saves (new 1 (codes "admin") none) ∷ Operation.assigns 7 1 ∷ Operation.assigns 8 1 ∷ []

abbrev tables : Tables
tables = run history (no_roles users)

abbrev store : Store
store = record {
  accounts =
      record { id = 7; active = true; token_version = 0 }
      ∷ record { id = 8; active = true; token_version = 0 }
      ∷ [];
  tables = tables;
  refresh_tokens = [];
  revocations = [];
  handoffs = [];
}

abbrev requests : List Request
requests = removes 7 8 1 5 ∷ removes 8 7 1 6 ∷ deletes 1 ∷ []

remove_tests :
    (admin_count (handle_all (λ t. true) requests store).tables ≡ 1)
    × ((remove_role 7 7 1 5 store).1 ≡ store)
    × ((remove_role 7 9 1 5 store).0 ≡ err not_found)
unfolding manage
remove_tests = (refl, refl, refl)

-- Two removals that both count before either removes: nobody has the role afterwards.
race_tests :
    (is_last_admin 1 store.tables ≡ false)
    × (admin_count (remove_checked 8 1 6 (remove_checked 7 1 5 store).1).1.tables ≡ 0)
unfolding manage
race_tests = (refl, refl)

tables-IsManaged : IsManaged tables
unfolding manage
tables-IsManaged = record {
  consistent = run-IsConsistent history (no_roles users) (no_roles-IsConsistent users);
  managed = omega arith;
}

handle_all-IsManaged_example : IsManaged (handle_all (λ t. true) requests store).tables
handle_all-IsManaged_example = handle_all-IsManaged (λ t. true) requests store tables-IsManaged
