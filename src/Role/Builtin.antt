-- ===== src/Role/Builtin.antt =====
-- The built-in roles outlive every deletion (`Role::delete` of server/src/role.rs), and what an
-- assignment shows to later reads.
use authere.Base.{
  ℕ, ◌≤◌, ◌≡◌, refl, ◌⊎◌, false, none, some, Option, List, [], ◌∷◌, arith, Bool-cases, ltb, inl,
  inr, ◌==◌,
}
use authere.Base.Text.{Text, same}
use authere.Base.Rows.{find, delete_where, count_where, delete_where-of_count}
use authere.Role.{
  Role, Tables, has_id, has_name, of_role, role_admin, role_user, get, get_by_name, is_builtin,
  delete,
}
use authere.Role.Invariant.{IsConsistent}

-- A search by name passes over a deletion by id, if the row of that id has another name.
find_name-delete :
    (id : ℕ) (name : Text) (roles : List Role)
    → count_where (has_id id) roles ≤ 1
    → ((r : Role) → find (has_id id) roles ≡ some r → same r.name name ≡ false)
    → find (has_name name) (delete_where (has_id id) roles) ≡ find (has_name name) roles
unfolding find delete_where count_where
find_name-delete id name [] h other = refl
find_name-delete id name (r ∷ roles) h other = elim (Bool-cases (r.id == id)) [
  | inl here ↦
      let gone = delete_where-of_count (has_id id) roles (ground arith) in
      let named : same r.name name ≡ false = other r (rw here) in ground arith
  | inr away ↦
      ground (arith, find_name-delete id name roles (ground arith) (λ q e. other q (rw away e)))
]

builtin_named :
    (name : Text) (found : Option Role)
    → (name ≡ role_admin) ⊎ (name ≡ role_user)
    → is_builtin found ≡ false
    → (r : Role) → found ≡ some r
    → same r.name name ≡ false
unfolding is_builtin
builtin_named name none which plain r e = cc
builtin_named name (some q) (inl admin) plain r e =
    let same_role : q ≡ r = ground arith in rw (admin, ← same_role) (ground (arith, plain))
builtin_named name (some q) (inr user) plain r e =
    let same_role : q ≡ r = ground arith in rw (user, ← same_role) (ground (arith, plain))

-- No deletion removes or replaces a role called `admin` or `user`.
get_by_name-delete_builtin :
    (db : Tables) (id : ℕ) (name : Text)
    → (name ≡ role_admin) ⊎ (name ≡ role_user)
    → IsConsistent db
    → get_by_name name (delete id db).1 ≡ get_by_name name db
unfolding delete get_by_name get
get_by_name-delete_builtin db id name which c =
    elim (Bool-cases (ltb 0 (count_where (of_role id) db.user_roles))) [
      | inl assigned ↦ rw assigned
      | inr unassigned ↦ elim (Bool-cases (is_builtin (get id db))) [
        | inl builtin ↦ rw (unassigned, builtin)
        | inr plain ↦
            rw (unassigned, plain)
              (find_name-delete id name db.roles (c.ids id)
                (builtin_named name (get id db) which plain))
      ]
    ]
