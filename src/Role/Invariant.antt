-- ===== src/Role/Invariant.antt =====
-- The operations of server/src/role.rs keep the tables consistent.
use authere.Base.{
  ℕ, ◌≤◌, ◌≡◌, ◌≢◌, refl, true, false, none, some, Option, List, [], ◌∷◌, arith, All, is_some,
  Bool-cases, ltb, subst, inl, inr, ◌==◌,
}
use authere.Base.Text.{Text, same, same_iff}
use authere.Base.Rows.{
  find, delete_where, count_where, count-delete_where_le, All-delete_where, count_where-of_find,
}
use authere.Role.{
  Role, Assignment, Tables, has_id, has_name, is_pair, of_role, get, is_builtin, save, delete,
  assign, remove,
}

abbrev pub Refers : List Role → Assignment → Type 0
Refers roles a = is_some (find (has_id a.role_id) roles) ≡ true

-- Ids, names and assignments are unique, and an assignment names a role that is there.
pub record IsConsistent (db : Tables) : Type 0 where
  pub ids : (id : ℕ) → count_where (has_id id) db.roles ≤ 1
  pub names : (name : Text) → count_where (has_name name) db.roles ≤ 1
  pub pairs : (user_id role_id : ℕ) → count_where (is_pair user_id role_id) db.user_roles ≤ 1
  pub refers : All (Refers db.roles) db.user_roles

-- An assignment still finds its role when another role is put in front.
Refers-cons :
    (role : Role) (roles : List Role) (rows : List Assignment)
    → All (Refers roles) rows
    → All (Refers (role ∷ roles)) rows
unfolding find
Refers-cons role roles [] h = tt
Refers-cons role roles (a ∷ rows) h = (ground arith, Refers-cons role roles rows h.1)

pub find-delete_where :
    (id other : ℕ) (roles : List Role)
    → id ≢ other
    → find (has_id other) (delete_where (has_id id) roles) ≡ find (has_id other) roles
unfolding find delete_where
find-delete_where id other [] h = refl
find-delete_where id other (r ∷ roles) h = ground (arith, find-delete_where id other roles h)

-- If no assignment is of the role, they keep their roles when it goes.
Refers-delete :
    (id : ℕ) (roles : List Role) (rows : List Assignment)
    → count_where (of_role id) rows ≡ 0
    → All (Refers roles) rows
    → All (Refers (delete_where (has_id id) roles)) rows
unfolding count_where
Refers-delete id roles [] z h = tt
Refers-delete id roles (a ∷ rows) z h = (
  ground (arith, find-delete_where id a.role_id roles, h.0),
  Refers-delete id roles rows (ground arith) h.1,
)

is_some-eq-false {ℓ} : {A : Type ℓ} (o : Option A) → is_some o ≡ false → o ≡ none
is_some-eq-false none h = refl
is_some-eq-false (some a) h = cc

module _ (role : Role) (roles : List Role) where
  -- The counts after an insert of a row whose id and name are free.
  ids-cons :
      (id : ℕ)
      → is_some (find (has_id role.id) roles) ≡ false
      → count_where (has_id id) roles ≤ 1
      → count_where (has_id id) (role ∷ roles) ≤ 1
  unfolding count_where
  ids-cons id free h = elim (Bool-cases (role.id == id)) [
    | inl here ↦
        let none_there = count_where-of_find (has_id role.id) roles (is_some-eq-false _ free) in
        let same_id : role.id ≡ id = ground arith in
        ground (arith, subst (λ i. count_where (has_id i) roles ≡ 0) same_id none_there)
    | inr other ↦ rw other h
  ]

  names-cons :
      (name : Text)
      → is_some (find (has_name role.name) roles) ≡ false
      → count_where (has_name name) roles ≤ 1
      → count_where (has_name name) (role ∷ roles) ≤ 1
  unfolding count_where
  names-cons name free h = elim (Bool-cases (same role.name name)) [
    | inl here ↦
        let none_there = count_where-of_find (has_name role.name) roles (is_some-eq-false _ free) in
        let same_name = (same_iff role.name name).0 here in
        ground (arith, subst (λ n. count_where (has_name n) roles ≡ 0) same_name none_there)
    | inr other ↦ rw other h
  ]

module _ (db : Tables) (c : IsConsistent db) where
  save_free :
      (role : Role)
      → is_some (find (has_id role.id) db.roles) ≡ false
      → is_some (find (has_name role.name) db.roles) ≡ false
      → IsConsistent (record db { roles = role ∷ db.roles })
  save_free role free_id free_name = record {
    ids = λ id. ids-cons role db.roles id free_id (c.ids id);
    names = λ name. names-cons role db.roles name free_name (c.names name);
    pairs = c.pairs;
    refers = Refers-cons role db.roles db.user_roles c.refers;
  }

  pub save-IsConsistent : (role : Role) → IsConsistent (save role db).1
  unfolding save
  save-IsConsistent role = elim (Bool-cases (is_some (find (has_id role.id) db.roles))) [
    | inl taken ↦ rw taken c
    | inr free_id ↦ elim (Bool-cases (is_some (find (has_name role.name) db.roles))) [
      | inl taken ↦ rw (free_id, taken) c
      | inr free_name ↦ rw (free_id, free_name) (save_free role free_id free_name)
    ]
  ]

  delete_unassigned :
      (id : ℕ)
      → count_where (of_role id) db.user_roles ≡ 0
      → IsConsistent (record db { roles = delete_where (has_id id) db.roles })
  delete_unassigned id z = record {
    ids = λ i. omega (arith, count-delete_where_le (has_id id) (has_id i) db.roles, c.ids i);
    names = λ name.
        omega (arith, count-delete_where_le (has_id id) (has_name name) db.roles, c.names name);
    pairs = c.pairs;
    refers = Refers-delete id db.roles db.user_roles z c.refers;
  }

  pub delete-IsConsistent : (id : ℕ) → IsConsistent (delete id db).1
  unfolding delete
  delete-IsConsistent id = elim (Bool-cases (ltb 0 (count_where (of_role id) db.user_roles))) [
    | inl assigned ↦ rw assigned c
    | inr unassigned ↦ elim (Bool-cases (is_builtin (get id db))) [
      | inl builtin ↦ rw (unassigned, builtin) c
      | inr plain ↦ rw (unassigned, plain) (delete_unassigned id (ground arith))
    ]
  ]

  pub assign-IsConsistent : (user_id role_id : ℕ) → IsConsistent (assign user_id role_id db).1
  unfolding assign count_where
  assign-IsConsistent user_id role_id = record {
    ids = λ id. ground (arith, c.ids id);
    names = λ name. ground (arith, c.names name);
    pairs = λ u r. ground (arith, c.pairs u r);
    refers = ground (arith, c.refers);
  }

  pub remove-IsConsistent : (user_id role_id : ℕ) → IsConsistent (remove user_id role_id db).1
  unfolding remove
  remove-IsConsistent user_id role_id = record {
    ids = c.ids;
    names = c.names;
    pairs = λ u r. omega (
      arith,
      count-delete_where_le (is_pair user_id role_id) (is_pair u r) db.user_roles,
      c.pairs u r,
    );
    refers = All-delete_where (Refers db.roles) (is_pair user_id role_id) db.user_roles c.refers;
  }

-- What the server does to the tables, in any order.
pub data Operation : Type 0 where
  saves : Role → Operation
  deletes : ℕ → Operation
  assigns : ℕ → ℕ → Operation
  removes : ℕ → ℕ → Operation

unfoldable pub perform : Operation → Tables → Tables
perform (saves role) db = (save role db).1
perform (deletes id) db = (delete id db).1
perform (assigns user_id role_id) db = (assign user_id role_id db).1
perform (removes user_id role_id) db = (remove user_id role_id db).1

unfoldable pub run : List Operation → Tables → Tables
run [] db = db
run (operation ∷ operations) db = run operations (perform operation db)

perform-IsConsistent :
    (operation : Operation) (db : Tables) → IsConsistent db → IsConsistent (perform operation db)
unfolding perform
perform-IsConsistent (saves role) db c = save-IsConsistent db c role
perform-IsConsistent (deletes id) db c = delete-IsConsistent db c id
perform-IsConsistent (assigns user_id role_id) db c = assign-IsConsistent db c user_id role_id
perform-IsConsistent (removes user_id role_id) db c = remove-IsConsistent db c user_id role_id

-- Whatever roles are saved, deleted, assigned and removed, in whatever order, consistent tables
-- stay consistent: ids, names and assignments are unique, and every assignment names a role that
-- is there.
pub run-IsConsistent :
    (operations : List Operation) (db : Tables) → IsConsistent db → IsConsistent (run operations db)
unfolding run
run-IsConsistent [] db c = c
run-IsConsistent (operation ∷ operations) db c =
    run-IsConsistent operations (perform operation db) (perform-IsConsistent operation db c)

-- The tables before any role is saved.
abbrev pub no_roles : List ℕ → Tables
no_roles users = record { users = users; roles = []; user_roles = [] }

pub no_roles-IsConsistent : (users : List ℕ) → IsConsistent (no_roles users)
unfolding count_where
no_roles-IsConsistent users = record {
  ids = λ id. omega arith;
  names = λ name. omega arith;
  pairs = λ u r. omega arith;
  refers = tt;
}
