-- ===== src/Ldap/Dn.antt =====
-- `Dn` and `parse_dn` of server/src/ldap/schema.rs: the names of entries, and what is below a name.
use authere.Base.{
  ℕ, ◌-◌, Bool, true, false, ◌&&◌, ◌||◌, Option, none, some, List, [], ◌∷◌, reverse, length, drop,
  is_empty, ◌==◌, ltb, if◌then◌else◌,
}
use authere.Base.Text.{Text, to_ascii_lowercase, eq_ignore_ascii_case}
use authere.Base.Errors.{Result, ok, err}
use authere.Http.{trim, split_once}

-- The result codes that the server gives, of those of the ldap3_proto crate.
pub data LdapResultCode : Type 0 where
  success : LdapResultCode
  operations_error : LdapResultCode
  no_such_object : LdapResultCode
  invalid_dn_syntax : LdapResultCode
  insufficient_access_rights : LdapResultCode
  unwilling_to_perform : LdapResultCode

-- an attribute and its value
abbrev Rdn : Type 0
Rdn = Text × Text

abbrev pub Dn : Type 0
Dn = List Rdn

abbrev same_rdn : Rdn → Rdn → Bool
same_rdn a b = eq_ignore_ascii_case a.0 b.0 && eq_ignore_ascii_case a.1 b.1

-- `zip(…).all(…)`
unfoldable pub zip_all : Dn → Dn → Bool
zip_all (a ∷ xs) (b ∷ ys) = same_rdn a b && zip_all xs ys
zip_all _ _ = true

-- `equals`
unfoldable pub equals : Dn → Dn → Bool
equals dn other = length dn == length other && zip_all dn other

-- `is_under`
unfoldable pub is_under : Dn → Dn → Bool
is_under dn suffix =
    if ltb (length dn) (length suffix)
    then false
    else zip_all (drop (length dn - length suffix) dn) suffix

-- `depth_under`
unfoldable pub depth_under : Dn → Dn → Option ℕ
depth_under dn suffix = if is_under dn suffix then some (length dn - length suffix) else none

-- `split_rdn`
unfoldable pub split_rdn : Text → Result Rdn LdapResultCode
split_rdn raw = elim (split_once b'=' raw) [
  | none ↦ err invalid_dn_syntax
  | some (attr, value) ↦
      if is_empty (trim attr) || is_empty (trim value)
      then err invalid_dn_syntax
      else ok (to_ascii_lowercase (trim attr), trim value)
]

-- `rdns.push(split_rdn(&piece)?)`, and the rest
abbrev push_rdn : Text → Result Dn LdapResultCode → Result Dn LdapResultCode
push_rdn piece rest = elim (split_rdn piece) [
  | err e ↦ err e
  | ok rdn ↦ elim rest [ err e ↦ err e | ok rdns ↦ ok (rdn ∷ rdns) ]
]

-- The loop of `parse_dn`; `current` is in reverse.
unfoldable pub parse_from : Text → Text → Result Dn LdapResultCode
parse_from [] [] = ok []
parse_from (p ∷ current) [] = push_rdn (reverse (p ∷ current)) (ok [])
parse_from current (c ∷ []) = elim (c == b'\\') [
  | true ↦ parse_from current []
  | false ↦ elim (c == b',') [
    | true ↦ push_rdn (reverse current) (parse_from [] [])
    | false ↦ parse_from (c ∷ current) []
  ]
]
parse_from current (c ∷ d ∷ s) = elim (c == b'\\') [
  | true ↦ parse_from (d ∷ current) s
  | false ↦ elim (c == b',') [
    | true ↦ push_rdn (reverse current) (parse_from [] (d ∷ s))
    | false ↦ parse_from (c ∷ current) (d ∷ s)
  ]
]

-- `parse_dn`
unfoldable pub parse_dn : Text → Result Dn LdapResultCode
parse_dn input = parse_from [] (trim input)
