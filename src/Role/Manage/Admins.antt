-- ===== src/Role/Manage/Admins.antt =====
-- How many administrators the statements of server/src/role.rs leave.
use authere.Base.{
  ℕ, ◌+◌, ◌≤◌, ◌≡◌, ◌≢◌, refl, Bool, true, false, some, List, [], ◌∷◌, arith, All, is_some,
  Bool-cases, Option-cases, ltb, inl, inr, ◌==◌, subst,
}
use authere.Base.Text.{same}
use authere.Base.Rows.{find, delete_where, count_where, delete_where-of_count}
use authere.Role.{
  Role, Assignment, Tables, has_id, has_name, is_pair, of_role, role_admin, is_builtin, get, save,
  delete, assign, remove,
}
use authere.Role.Invariant.{find-delete_where, Refers, IsConsistent}
use authere.Role.Manage.{is_admin_row, admin_count, is_last_admin}

admin_row-new_role :
    (role : Role) (roles : List Role) (a : Assignment)
    → is_some (find (has_id role.id) roles) ≡ false
    → Refers roles a
    → is_admin_row (role ∷ roles) a ≡ is_admin_row roles a
unfolding is_admin_row find
admin_row-new_role role roles a free refers = elim (Bool-cases (role.id == a.role_id)) [
  | inr other ↦ rw (is_admin_row, other) refl
  | inl here ↦
      let e : role.id ≡ a.role_id = ground arith in
      let gone = subst (λ i. is_some (find (has_id i) roles) ≡ false) e free in ground arith
]

-- a new role in front, of an id that no role has, is of no assignment
count-new_role :
    (role : Role) (roles : List Role) (rows : List Assignment)
    → is_some (find (has_id role.id) roles) ≡ false
    → All (Refers roles) rows
    → count_where (is_admin_row (role ∷ roles)) rows ≡ count_where (is_admin_row roles) rows
unfolding count_where
count-new_role role roles [] free refers = refl
count-new_role role roles (a ∷ rows) free refers = ground (
  arith,
  admin_row-new_role role roles a free refers.0,
  count-new_role role roles rows free refers.1,
)

admin_row-old_role :
    (id : ℕ) (roles : List Role) (a : Assignment)
    → id ≢ a.role_id
    → is_admin_row (delete_where (has_id id) roles) a ≡ is_admin_row roles a
unfolding is_admin_row
admin_row-old_role id roles a other =
    rw (is_admin_row, find-delete_where id a.role_id roles other) refl

-- a role of no assignment goes
count-old_role :
    (id : ℕ) (roles : List Role) (rows : List Assignment)
    → count_where (of_role id) rows ≡ 0
    → count_where (is_admin_row (delete_where (has_id id) roles)) rows
      ≡ count_where (is_admin_row roles) rows
unfolding count_where
count-old_role id roles [] free = refl
count-old_role id roles (a ∷ rows) free =
    let other : id ≢ a.role_id = ground arith in
    ground (arith, admin_row-old_role id roles a other, count-old_role id roles rows (ground arith))

-- an assignment goes that is unique
count-removed :
    (user_id role_id : ℕ) (roles : List Role) (rows : List Assignment)
    → count_where (is_pair user_id role_id) rows ≤ 1
    → count_where (is_admin_row roles) rows
      ≤ count_where (is_admin_row roles) (delete_where (is_pair user_id role_id) rows) + 1
unfolding count_where delete_where
count-removed user_id role_id roles [] unique = omega arith
count-removed user_id role_id roles (a ∷ rows) unique =
    elim (Bool-cases (is_pair user_id role_id a)) [
      | inl here ↦
          let rest = delete_where-of_count (is_pair user_id role_id) rows (ground arith) in
          rw (here, rest) (ground arith)
      | inr other ↦ ground (arith, count-removed user_id role_id roles rows)
    ]

count-delete_where_other {ℓ} :
    {A : Type ℓ} (p q : A → Bool) (rows : List A)
    → ((r : A) → p r ≡ true → q r ≡ false)
    → count_where q (delete_where p rows) ≡ count_where q rows
unfolding count_where delete_where
count-delete_where_other p q [] apart = refl
count-delete_where_other p q (r ∷ rows) apart =
    ground (arith, apart r, count-delete_where_other p q rows apart)

-- an assignment of a role that is not the administrators'
pair-is_admin_row :
    (user_id role_id : ℕ) (roles : List Role) (a : Assignment)
    → ((role : Role) → find (has_id role_id) roles ≡ some role → same role.name role_admin ≡ false)
    → is_pair user_id role_id a ≡ true
    → is_admin_row roles a ≡ false
unfolding is_admin_row
pair-is_admin_row user_id role_id roles a plain pair =
    let e : a.role_id ≡ role_id = ground arith in
    elim (Option-cases (find (has_id role_id) roles)) [
      | inl missing ↦ rw (is_admin_row, e, missing) refl
      | inr (role, found) ↦ rw (is_admin_row, e, found) (plain role found)
    ]

module _ (db : Tables) (c : IsConsistent db) where
  pub saves-admins : (role : Role) → 1 ≤ admin_count db → 1 ≤ admin_count (save role db).1
  unfolding save admin_count
  saves-admins role h = elim (Bool-cases (is_some (find (has_id role.id) db.roles))) [
    | inl taken ↦ rw (taken) h
    | inr free_id ↦ elim (Bool-cases (is_some (find (has_name role.name) db.roles))) [
      | inl taken ↦ rw (free_id, taken) h
      | inr free_name ↦
          rw (free_id, free_name, count-new_role role db.roles db.user_roles free_id c.refers) h
    ]
  ]

  pub delete-admins : (id : ℕ) → 1 ≤ admin_count db → 1 ≤ admin_count (delete id db).1
  unfolding delete admin_count
  delete-admins id h = elim (Bool-cases (ltb 0 (count_where (of_role id) db.user_roles))) [
    | inl assigned ↦ rw (assigned) h
    | inr unassigned ↦ elim (Bool-cases (is_builtin (get id db))) [
      | inl builtin ↦ rw (unassigned, builtin) h
      | inr plain ↦
          rw (unassigned, plain, count-old_role id db.roles db.user_roles (ground arith)) h
    ]
  ]

  pub assign-admins :
      (user_id role_id : ℕ) → 1 ≤ admin_count db → 1 ≤ admin_count (assign user_id role_id db).1
  unfolding assign admin_count count_where
  assign-admins user_id role_id h = ground arith

  pub remove-admins :
      (user_id role_id : ℕ)
      → is_last_admin role_id db ≡ false
      → 1 ≤ admin_count db
      → 1 ≤ admin_count (remove user_id role_id db).1
  unfolding remove admin_count is_last_admin get
  remove-admins user_id role_id h many =
      let removed =
        count-removed user_id role_id db.roles db.user_roles (c.pairs user_id role_id) in
      let kept =
        count-delete_where_other (is_pair user_id role_id) (is_admin_row db.roles) db.user_roles in
      let plain = pair-is_admin_row user_id role_id db.roles in
      elim (Option-cases (find (has_id role_id) db.roles)) [
        | inl missing ↦ rw (kept (λ a. plain a (λ role found. cc))) many
        | inr (role, found) ↦ elim (Bool-cases (same role.name role_admin)) [
          | inl admin ↦ ground arith
          | inr other ↦ rw (kept (λ a. plain a (λ r e. ground arith))) many
        ]
      ]
