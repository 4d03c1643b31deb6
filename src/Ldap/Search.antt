-- ===== src/Ldap/Search.antt =====
-- `handle_search` of server/src/ldap/handler.rs. A message's id and the fields that are always empty
-- are left out.
pub mod Shown
use authere.Base.{
  ℕ, zero, suc, Bool, true, false, not, ◌&&◌, ◌||◌, Option, none, some, List, [], ◌∷◌, ◌++◌, map,
  any, is_empty, ◌==◌, ltb, if◌then◌else◌,
}
use authere.Base.Text.{Text, codes, same}
use authere.Base.Errors.{Result, ok, err}
use authere.Role.{Role, get_for_user}
use authere.User.{User}
use authere.State.{Db, get_user, users_of}
use authere.Session.Tokens.{get_roles}
use authere.Ldap.Dn.{
  LdapResultCode, success, operations_error, no_such_object, invalid_dn_syntax,
  insufficient_access_rights, unwilling_to_perform, Dn, equals, is_under, depth_under, parse_dn,
}
use authere.Ldap.Entry.{
  LdapConfig, Build, Entry, people_base_dn, groups_base_dn, to_ldap, build_user_entry,
  build_group_entry, build_root_dse,
}
use authere.Ldap.Filter.{LdapFilter, matches}

pub data BindState : Type 0 where
  anonymous : BindState
  service : BindState
  user : ℕ → BindState

pub data LdapSearchScope : Type 0 where
  base_object : LdapSearchScope
  one_level : LdapSearchScope
  subtree : LdapSearchScope
  children : LdapSearchScope

pub record SearchRequest : Type 0 where
  pub base : Text
  pub scope : LdapSearchScope
  pub filter : LdapFilter
  pub attrs : List Text

pub data LdapMsg : Type 0 where
  result_entry : Entry → LdapMsg
  search_done : LdapResultCode → Text → LdapMsg

abbrev pub is_anonymous : BindState → Bool
is_anonymous anonymous = true
is_anonymous service = false
is_anonymous (user id) = false

abbrev pub is_base : LdapSearchScope → Bool
is_base base_object = true
is_base one_level = false
is_base subtree = false
is_base children = false

abbrev pub is_one : Option ℕ → Bool
is_one none = false
is_one (some n) = n == 1

-- `include_users`, `include_groups`: whether a search reaches a unit
unfoldable pub reaches : LdapSearchScope → Dn → Dn → Bool
reaches base_object base unit = equals base unit || is_one (depth_under base unit)
reaches one_level base unit = equals base unit
reaches subtree base unit = is_under base unit || is_under unit base
reaches children base unit = is_under base unit || is_under unit base

-- `entry_in_scope`
unfoldable pub entry_in_scope : Dn → Dn → LdapSearchScope → Bool
entry_in_scope entry base base_object = equals entry base
entry_in_scope entry base one_level = is_one (depth_under entry base)
entry_in_scope entry base subtree = is_under entry base
entry_in_scope entry base children = is_under entry base && not (equals entry base)

abbrev pub before : Text → Text → Bool
before [] b = true
before (x ∷ a) [] = false
before (x ∷ a) (y ∷ b) = ltb x y || x == y && before a b

unfoldable pub insert_role : Role → List Role → List Role
insert_role role [] = role ∷ []
insert_role role (r ∷ roles) =
    let rest = insert_role role roles in
    if before role.name r.name then role ∷ r ∷ roles else r ∷ rest

-- `Role::list`, in the order of the names
unfoldable pub list_roles : List Role → List Role
list_roles [] = []
list_roles (r ∷ roles) = insert_role r (list_roles roles)

-- whether an entry is below the base and passes the filter
unfoldable pub is_found : SearchRequest → Dn → Entry → Bool
is_found req base entry = elim (parse_dn entry.dn) [
  | err _ ↦ false
  | ok dn ↦ entry_in_scope dn base req.scope && matches entry req.filter
]

abbrev pub keep {ℓ} : {A : Type ℓ} → (A → Bool) → List A → List A
keep p [] = []
keep p (x ∷ xs) = let rest = keep p xs in if p x then x ∷ rest else rest

-- the names of the users that have a role
unfoldable pub member_usernames : Role → Db → List Text
member_usernames role db =
    map (λ (u : User). u.username)
      (keep
        (λ (u : User). any (λ r. same r.role_name role.name) (get_for_user u.id db.sessions.tables))
        (users_of db))

unfoldable pub group_entries : LdapConfig → Db → List Entry
group_entries cfg db =
    map (λ role. build_group_entry role (member_usernames role db) cfg)
      (list_roles db.sessions.tables.roles)

-- `finalize`
unfoldable pub finalize : SearchRequest → List Entry → List LdapMsg
finalize req [] = search_done success [] ∷ []
finalize req (entry ∷ entries) = result_entry (to_ldap req.attrs entry) ∷ finalize req entries

abbrev pub refuse : LdapResultCode → Text → List LdapMsg
refuse result message = search_done result message ∷ []

-- the user of a bind is still there, and active
unfoldable pub is_bound : BindState → Db → Bool
is_bound anonymous db = true
is_bound service db = true
is_bound (user id) db = elim (get_user id db) [ none ↦ false | some u ↦ u.active ]

-- the names of the units and of the directory
pub record Names : Type 0 where
  pub people : Dn
  pub groups : Dn
  pub root : Dn

unfoldable pub read_names : LdapConfig → Result Names LdapResultCode
read_names cfg = elim (parse_dn (people_base_dn cfg)) [
  | err _ ↦ err operations_error
  | ok people ↦ elim (parse_dn (groups_base_dn cfg)) [
    | err _ ↦ err operations_error
    | ok groups ↦ elim (parse_dn cfg.base_dn) [
      | err _ ↦ err operations_error
      | ok root ↦ ok (record { people = people; groups = groups; root = root })
    ]
  ]
]

module _ (build : Build) where
  unfoldable pub user_entries : LdapConfig → Db → List Entry
  user_entries cfg db =
      map (λ (u : User). build_user_entry build u (get_roles u.id db.sessions) cfg) (users_of db)

  -- the entries of the units that a search reaches
  unfoldable pub entries_of : SearchRequest → LdapConfig → Dn → Names → Db → List Entry
  entries_of req cfg base names db =
      keep (is_found req base)
        (if reaches req.scope base names.people then user_entries cfg db else [])
      ++ keep (is_found req base)
          (if reaches req.scope base names.groups then group_entries cfg db else [])

  -- a search below a base
  unfoldable pub search_below :
      SearchRequest → LdapConfig → BindState → Dn → Names → Db → List LdapMsg
  search_below req cfg bind base names db =
      if not (reaches req.scope base names.people) && not (reaches req.scope base names.groups)
      then if not (equals base names.root) && not (is_under base names.root)
        then refuse no_such_object []
        else refuse success []
      else if not (is_bound bind db)
      then refuse insufficient_access_rights (codes "bind required")
      else finalize req (entries_of req cfg base names db)

  -- `handle_search` from the base on
  unfoldable pub search_from : SearchRequest → LdapConfig → BindState → Db → List LdapMsg
  search_from req cfg bind db = elim (parse_dn req.base) [
    | err _ ↦ refuse invalid_dn_syntax (codes "bad base DN")
    | ok base ↦ elim (read_names cfg) [
      | err e ↦ refuse e (codes "bad config")
      | ok names ↦ search_below req cfg bind base names db
    ]
  ]

  -- `handle_search`
  unfoldable pub handle_search : SearchRequest → LdapConfig → BindState → Db → List LdapMsg
  handle_search req cfg bind db =
      if not cfg.enabled
      then refuse unwilling_to_perform (codes "LDAP disabled")
      else if is_anonymous bind && not (is_empty req.base)
      then refuse insufficient_access_rights (codes "bind required")
      else if is_empty req.base && is_base req.scope
      then finalize req (build_root_dse build cfg ∷ [])
      else search_from req cfg bind db
