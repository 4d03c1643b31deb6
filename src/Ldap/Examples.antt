-- ===== src/Ldap/Examples.antt =====
-- Searches of a directory of one user, without a group.
use authere.Base.{◌≡◌, refl, true, none, some, [], ◌∷◌}
use authere.Base.Text.{Text, codes, same, starts_with, to_ascii_lowercase, eq_ignore_ascii_case}
use authere.Base.Rows.{find}
use authere.Base.Errors.{ok, err}
use authere.Http.{white_len, trim_start_from, is_white, trim_end, trim, split_once_from, split_once}
use authere.Role.{get_for_user, join_roles}
use authere.State.{get_user}
use authere.Oauth.Sample.{db}
use authere.Ldap.Dn.{
  success, no_such_object, invalid_dn_syntax, insufficient_access_rights, zip_all, equals, is_under,
  depth_under, split_rdn, parse_from, parse_dn,
}
use authere.Ldap.Entry.{
  primary_and_app, LdapConfig, Build, values_in, is_requested, select, to_ldap, members_of,
  build_group_entry, build_user_entry, build_root_dse,
}
use authere.Ldap.Filter.{
  LdapFilter, negate, present, containing, find_text, skip_parts, substring_matches, equality,
  substring, matches,
}
use authere.Ldap.Search.{
  anonymous, service, user, LdapSearchScope, one_level, subtree, children, SearchRequest, LdapMsg,
  result_entry, search_done, reaches, entry_in_scope, insert_role, list_roles, is_found,
  member_usernames, group_entries, finalize, is_bound, read_names, user_entries, entries_of,
  search_below, search_from, handle_search,
}
use authere.Ldap.Search.Shown.{Each, IsShown, handle_search-AreShown, handle_search_anonymous}

directory : Unit {0}
unfolding get_user white_len trim_start_from is_white trim_end trim split_once_from split_once same
    find starts_with to_ascii_lowercase eq_ignore_ascii_case get_for_user join_roles zip_all equals
    is_under depth_under split_rdn parse_from parse_dn values_in is_requested select to_ldap
    members_of build_group_entry build_user_entry build_root_dse find_text skip_parts
    substring_matches equality substring matches reaches entry_in_scope insert_role list_roles
    is_found member_usernames group_entries finalize is_bound read_names user_entries entries_of
    search_below search_from handle_search
directory = tt

abbrev cfg : LdapConfig
cfg = record {
  enabled = true;
  base_dn = codes "dc=x";
  service_password_hash = none;
  password_mode = primary_and_app;
}

abbrev build : Build
build = record { show_uuid = λ id. id ∷ []; pkg_version = codes "1" }

abbrev request : Text → LdapSearchScope → LdapFilter → SearchRequest
request base scope filter = record {
  base = base;
  scope = scope;
  filter = filter;
  attrs = codes "MAIL" ∷ [];
}

-- the entry of the user, with the attribute asked for
abbrev ada : LdapMsg
ada = result_entry (record {
  dn = codes "uid=ada,ou=people,dc=x";
  attrs = (codes "mail", codes "a@b.cd" ∷ []) ∷ [];
})

abbrev anyone : LdapFilter
anyone = present (codes "uid")

search_tests :
    (handle_search build (request (codes "OU=People, dc=x") one_level anyone) cfg service db
      ≡ ada ∷ search_done success [] ∷ [])
    × (handle_search build
          (request (codes "ou=people,dc=x") one_level (negate anyone))
          cfg
          (user 7)
          db
        ≡ search_done success [] ∷ [])
    × (handle_search build
          (request (codes "dc=x") subtree (
            containing (codes "cn") (record {
              initial = some (codes "a");
              any_parts = codes "D" ∷ [];
              final_part = some (codes "a");
            })))
          cfg
          (user 7)
          db
        ≡ ada ∷ search_done success [] ∷ [])
    × (handle_search build (request (codes "dc=x") subtree anyone) cfg anonymous db
        ≡ search_done insufficient_access_rights (codes "bind required") ∷ [])
    × (handle_search build (request (codes "dc=x") subtree anyone) cfg (user 8) db
        ≡ search_done insufficient_access_rights (codes "bind required") ∷ [])
    × (handle_search build (request (codes "dc=y") subtree anyone) cfg service db
        ≡ search_done no_such_object [] ∷ [])
    × (handle_search build (request [] children anyone) cfg anonymous db
        ≡ ada ∷ search_done success [] ∷ [])
unfolding directory
search_tests = (refl, refl, refl, refl, refl, refl, refl)

name_tests :
    (parse_dn (codes " CN = a\\,b , dc=x ")
      ≡ ok ((codes "cn", codes "a,b") ∷ (codes "dc", codes "x") ∷ []))
    × (parse_dn (codes "x") ≡ err invalid_dn_syntax)
    × (parse_dn (codes "dc=x,,dc=y") ≡ err invalid_dn_syntax)
    × (parse_dn (codes "dc=x,") ≡ ok ((codes "dc", codes "x") ∷ []))
unfolding directory
name_tests = (refl, refl, refl, refl)

handle_search-AreShown_example :
    Each
      (IsShown build (request (codes "dc=x") subtree anyone) cfg (user 7) db)
      (ada ∷ search_done success [] ∷ [])
unfolding directory
handle_search-AreShown_example =
    handle_search-AreShown build (request (codes "dc=x") subtree anyone) cfg (user 7) db

handle_search_anonymous_example :
    handle_search build (request [] subtree anyone) cfg anonymous db
    ≡ handle_search build (request [] subtree anyone) cfg service db
handle_search_anonymous_example =
    handle_search_anonymous build (request [] subtree anyone) cfg db refl
