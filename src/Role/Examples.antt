-- ===== src/Role/Examples.antt =====
-- Runs of server/src/role.rs on small tables.
use authere.Base.{◌≡◌, refl, none, List, [], ◌∷◌}
use authere.Base.Text.{codes, same}
use authere.Base.Rows.{find, delete_where, count_where}
use authere.Role.{new, get_by_name, save, delete, assign, remove, get, is_builtin, get_for_user}
use authere.Role.Invariant.{Operation, saves, deletes, assigns, removes, run, perform, no_roles}

tables : Unit {0}
unfolding run perform save delete assign remove get is_builtin get_by_name get_for_user new find
    delete_where count_where same
tables = tt

abbrev history : List Operation
history =
    saves (new 1 (codes "admin") none)
    ∷ saves (new 2 (codes "ops") none)
    ∷ assigns 7 2
    ∷ deletes 2
    ∷ removes 7 2
    ∷ deletes 1
    ∷ []

after_history :
    (run history (no_roles (7 ∷ []))).roles
    ≡ new 2 (codes "ops") none ∷ new 1 (codes "admin") none ∷ []
unfolding tables
after_history = refl
