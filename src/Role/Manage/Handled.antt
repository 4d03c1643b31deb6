-- ===== src/Role/Manage/Handled.antt =====
-- The handlers of server/src/handlers/role.rs never take the last administrator's role away.
use authere.Base.{ℕ, ◌≤◌, Bool, List, [], ◌∷◌, is_some, Bool-cases, inl, inr}
use authere.Base.Text.{Text}
use authere.Base.Rows.{find}
use authere.Base.Errors.{Result-cases}
use authere.Session.{Store, of_account, revoke_user_access_tokens}
use authere.Role.{CreateRoleInput, Tables, new, get, assign, remove, ensure_not_self_role_removal}
use authere.Role.Invariant.{
  IsConsistent, save-IsConsistent, delete-IsConsistent, assign-IsConsistent, remove-IsConsistent,
}
use authere.Role.Manage.Admins.{saves-admins, delete-admins, assign-admins, remove-admins}
use authere.Role.Manage.{
  validate_role, create_role, delete_role, admin_count, is_last_admin, with_tables, assign_role,
  remove_checked, remove_role,
}

-- The tables are consistent, and somebody has the role `admin`.
pub record IsManaged (db : Tables) : Type 0 where
  pub consistent : IsConsistent db
  pub managed : 1 ≤ admin_count db

-- what administrators ask for, with the fresh id or the time of the request
pub data Request : Type 0 where
  creates : ℕ → CreateRoleInput → Request
  deletes : ℕ → Request
  assigns : ℕ → ℕ → ℕ → Request
  removes : ℕ → ℕ → ℕ → ℕ → Request

module _ (is_word : Text → Bool) where
  unfoldable pub handle : Request → Store → Store
  handle (creates id input) store = with_tables store (create_role is_word id input store.tables).1
  handle (deletes id) store = with_tables store (delete_role id store.tables).1
  handle (assigns user_id role_id now) store = (assign_role user_id role_id now store).1
  handle (removes actor_id user_id role_id now) store =
      (remove_role actor_id user_id role_id now store).1

  unfoldable pub handle_all : List Request → Store → Store
  handle_all [] store = store
  handle_all (request ∷ requests) store = handle_all requests (handle request store)

  create_role-IsManaged :
      (id : ℕ) (input : CreateRoleInput) (db : Tables)
      → IsManaged db
      → IsManaged (create_role is_word id input db).1
  unfolding create_role
  create_role-IsManaged id input db h = elim (Result-cases (validate_role is_word input)) [
    | inr (e, bad) ↦ rw (create_role, bad) h
    | inl (u, good) ↦
        let role = new id input.name input.description in
        rw (create_role, good)
          (record {
            consistent = save-IsConsistent db h.consistent role;
            managed = saves-admins db h.consistent role h.managed;
          })
  ]

  assign_role-IsManaged :
      (user_id role_id now : ℕ) (store : Store)
      → IsManaged store.tables
      → IsManaged (assign_role user_id role_id now store).1.tables
  unfolding assign_role revoke_user_access_tokens
  assign_role-IsManaged user_id role_id now store h =
      let assigned : IsManaged (assign user_id role_id store.tables).1 = record {
        consistent = assign-IsConsistent store.tables h.consistent user_id role_id;
        managed = assign-admins store.tables h.consistent user_id role_id h.managed;
      } in
      elim (Bool-cases (is_some (find (of_account user_id) store.accounts))) [
        | inr missing ↦ rw (assign_role, missing) h
        | inl user ↦ elim (Bool-cases (is_some (get role_id store.tables))) [
          | inr missing ↦ rw (assign_role, user, missing) h
          | inl role ↦ elim (Result-cases (assign user_id role_id store.tables).0) [
            | inr (e, bad) ↦ rw (assign_role, user, role, bad) assigned
            | inl (u, good) ↦ rw (assign_role, user, role, good) assigned
          ]
        ]
      ]

  remove_role-IsManaged :
      (actor_id user_id role_id now : ℕ) (store : Store)
      → IsManaged store.tables
      → IsManaged (remove_role actor_id user_id role_id now store).1.tables
  unfolding remove_role remove_checked revoke_user_access_tokens
  remove_role-IsManaged actor_id user_id role_id now store h =
      elim (Result-cases (ensure_not_self_role_removal actor_id user_id)) [
        | inr (e, own) ↦ rw (remove_role, own) h
        | inl (u, good) ↦ elim (Bool-cases (is_last_admin role_id store.tables)) [
          | inl last ↦ rw (remove_role, good, last) h
          | inr more ↦
              let left : IsManaged (remove user_id role_id store.tables).1 = record {
                consistent = remove-IsConsistent store.tables h.consistent user_id role_id;
                managed = remove-admins store.tables h.consistent user_id role_id more h.managed;
              } in
              elim (Bool-cases (remove user_id role_id store.tables).0) [
                | inl removed ↦ rw (remove_role, good, more, remove_checked, removed) left
                | inr missing ↦ rw (remove_role, good, more, remove_checked, missing) left
              ]
        ]
      ]

  handle-IsManaged :
      (request : Request) (store : Store)
      → IsManaged store.tables
      → IsManaged (handle request store).tables
  unfolding handle delete_role
  handle-IsManaged (creates id input) store h = create_role-IsManaged id input store.tables h
  handle-IsManaged (deletes id) store h = record {
    consistent = delete-IsConsistent store.tables h.consistent id;
    managed = delete-admins store.tables h.consistent id h.managed;
  }
  handle-IsManaged (assigns user_id role_id now) store h =
      assign_role-IsManaged user_id role_id now store h
  handle-IsManaged (removes actor_id user_id role_id now) store h =
      remove_role-IsManaged actor_id user_id role_id now store h

  -- While the tables are consistent and somebody has the role `admin`, both stay so whatever
  -- administrators ask for, in whatever order, one request after the other: no creation, deletion,
  -- assignment or removal of a role takes the last administrator's role away.
  pub handle_all-IsManaged :
      (requests : List Request) (store : Store)
      → IsManaged store.tables
      → IsManaged (handle_all requests store).tables
  unfolding handle_all
  handle_all-IsManaged [] store h = h
  handle_all-IsManaged (request ∷ requests) store h =
      handle_all-IsManaged requests (handle request store) (handle-IsManaged request store h)
