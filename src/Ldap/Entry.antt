-- ===== src/Ldap/Entry.antt =====
-- The entries of the directory (server/src/ldap/schema.rs) and the settings they depend on
-- (`LdapConfig` of server/src/settings.rs, but for the address that the server listens on). The text
-- of a UUID and the version of the package are parameters.
use authere.Base.{
  ℕ, Bool, true, false, ◌||◌, Option, none, some, List, [], ◌∷◌, ◌++◌, map, any, is_empty, is_some,
  if◌then◌else◌,
}
use authere.Base.Text.{Text, codes, same, eq_ignore_ascii_case}
use authere.Role.{Role}
use authere.User.{User}

pub data LdapPasswordMode : Type 0 where
  primary_and_app : LdapPasswordMode
  app_only : LdapPasswordMode
  primary_only : LdapPasswordMode

pub record LdapConfig : Type 0 where
  pub enabled : Bool
  pub base_dn : Text
  pub service_password_hash : Option Text
  pub password_mode : LdapPasswordMode

pub record Build : Type 0 where
  pub show_uuid : ℕ → Text
  pub pkg_version : Text

-- `app_passwords_enabled`
unfoldable pub app_passwords_enabled : LdapPasswordMode → Bool
app_passwords_enabled primary_and_app = true
app_passwords_enabled app_only = true
app_passwords_enabled primary_only = false

-- `service_account_dn`, `people_base_dn`, `groups_base_dn`
abbrev pub service_account_dn : LdapConfig → Text
service_account_dn cfg = codes "cn=service," ++ cfg.base_dn

abbrev pub people_base_dn : LdapConfig → Text
people_base_dn cfg = codes "ou=people," ++ cfg.base_dn

abbrev pub groups_base_dn : LdapConfig → Text
groups_base_dn cfg = codes "ou=groups," ++ cfg.base_dn

-- `user_dn`, `group_dn`
abbrev user_dn : Text → LdapConfig → Text
user_dn username cfg = codes "uid=" ++ username ++ codes "," ++ people_base_dn cfg

abbrev group_dn : Text → LdapConfig → Text
group_dn role_name cfg = codes "cn=" ++ role_name ++ codes "," ++ groups_base_dn cfg

abbrev Attributes : Type 0
Attributes = List (Text × List Text)

pub record Entry : Type 0 where
  pub dn : Text
  pub attrs : Attributes

unfoldable pub values_in : Text → Attributes → Option (List Text)
values_in name [] = none
values_in name (attr ∷ attrs) =
    let rest = values_in name attrs in
    if eq_ignore_ascii_case attr.0 name then some attr.1 else rest

-- `attr_values`, `has_attr`
abbrev pub attr_values : Entry → Text → Option (List Text)
attr_values entry name = values_in name entry.attrs

abbrev pub has_attr : Entry → Text → Bool
has_attr entry name = is_some (attr_values entry name)

unfoldable pub is_requested : List Text → Text → Bool
is_requested requested name =
    is_empty requested
    || any (λ r. same r (codes "*") || eq_ignore_ascii_case r (codes "all")) requested
    || any (λ r. eq_ignore_ascii_case r name) requested

unfoldable pub select : List Text → Attributes → Attributes
select requested [] = []
select requested (attr ∷ attrs) =
    let rest = select requested attrs in if is_requested requested attr.0 then attr ∷ rest else rest

-- `to_ldap`
unfoldable pub to_ldap : List Text → Entry → Entry
to_ldap requested entry = record { dn = entry.dn; attrs = select requested entry.attrs }

abbrev single : Text → Text → Text × List Text
single name value = (name, value ∷ [])

abbrev given_attr : Text → Option Text → Attributes
given_attr name none = []
given_attr name (some value) = single name value ∷ []

unfoldable pub members_of : List Text → LdapConfig → List Text
members_of usernames cfg =
    if is_empty usernames
    then (codes "cn=placeholder," ++ cfg.base_dn) ∷ []
    else map (λ u. user_dn u cfg) usernames

-- `build_group_entry`
unfoldable pub build_group_entry : Role → List Text → LdapConfig → Entry
build_group_entry role member_usernames cfg = record {
  dn = group_dn role.name cfg;
  attrs =
      (codes "objectClass", codes "top" ∷ codes "groupOfNames" ∷ [])
        ∷ single (codes "cn") role.name
        ∷ given_attr (codes "description") role.description
      ++ (codes "member", members_of member_usernames cfg) ∷ [];
}

module _ (build : Build) where
  -- `build_user_entry`
  unfoldable pub build_user_entry : User → List Text → LdapConfig → Entry
  build_user_entry user role_names cfg = record {
    dn = user_dn user.username cfg;
    attrs =
        (codes "objectClass", codes "top" ∷ codes "person" ∷ codes "inetOrgPerson" ∷ [])
          ∷ single (codes "uid") user.username
          ∷ single (codes "cn") user.name
          ∷ single (codes "sn") user.name
          ∷ single (codes "displayName") user.name
          ∷ single (codes "entryUUID") (build.show_uuid user.id)
          ∷ given_attr (codes "mail") user.email
        ++ (if is_empty role_names
            then []
            else (codes "memberOf", map (λ r. group_dn r cfg) role_names) ∷ []);
  }

  -- `build_root_dse`
  unfoldable pub build_root_dse : LdapConfig → Entry
  build_root_dse cfg = record {
    dn = [];
    attrs =
        single (codes "objectClass") (codes "top")
        ∷ single (codes "namingContexts") cfg.base_dn
        ∷ single (codes "supportedLDAPVersion") (codes "3")
        ∷ single (codes "vendorName") (codes "Authere")
        ∷ single (codes "vendorVersion") build.pkg_version
        ∷ [];
  }
