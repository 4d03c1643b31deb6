-- ===== src/Application/Examples.antt =====
-- Requests, inputs and access checks of server/src/application.rs at concrete values. In the place
-- of the regex crate stands a matcher that knows one pattern.
use authere.Base.{◌≡◌, ◌↔◌, ◌⊎◌, refl, true, Option, none, some, List, [], ◌∷◌, Any, if◌then◌else◌}
use authere.Base.Text.{Text, codes, same, starts_with, eq_ignore_ascii_case, is_ascii_alphanumeric}
use authere.Base.Rows.{find}
use authere.Base.Errors.{ok, err}
use authere.Role.{Tables, get}
use authere.Application.{Application, CreateApplicationInput, create}
use authere.Application.Policy.{
  HostRegex, literal_host_pattern, rank_lt, rank_eq, rank, settle, host_matches, matches,
  is_candidate, consider, choose, find_matching,
}
use authere.Application.Selection.{best, of_score, decide, find_matching-eq-decide}
use authere.Application.Access.{
  any_contained, ParseUuid, resolve, required_names, check_access_resolved, Grants,
  check_access_resolved_iff,
}
use authere.Application.Input.{
  Url, Crates, check_scheme, validate_oidc_redirect_uri, uri_errors, type_errors, unless, report,
  validate_input,
}

policy : Unit {0}
unfolding literal_host_pattern rank_lt rank_eq rank settle host_matches matches is_candidate
    consider choose find_matching create same starts_with eq_ignore_ascii_case check_scheme
    validate_oidc_redirect_uri uri_errors type_errors unless report validate_input any_contained
    resolve required_names check_access_resolved get find
policy = tt

abbrev regex : HostRegex
regex pattern =
    if same pattern (codes ".*[.]example[.]org")
    then some (λ host. starts_with host (codes "www."))
    else none

abbrev input : Text → Option Text → CreateApplicationInput
input host prefix = record {
  name = codes "site";
  slug = codes "site";
  app_type = none;
  host_pattern = some host;
  path_prefix = prefix;
  required_roles = some (codes "3" ∷ []);
  enabled = none;
  oidc_redirect_uris = none;
  oidc_post_logout_redirect_uris = none;
  oidc_confidential = none;
}

abbrev host : Text
host = codes "www.example.org"

abbrev any_host : Application
any_host = create 1 100 (input (codes ".*[.]example[.]org") none)

abbrev one_host : Application
one_host = create 2 100 (input (codes "WWW.example.org") none)

abbrev admin_area : Application
admin_area = create 3 100 (input (codes ".*[.]example[.]org") (some (codes "/admin")))

abbrev apps : List Application
apps = any_host ∷ one_host ∷ admin_area ∷ []

find_matching_tests :
    (find_matching regex host (codes "/admin/x") apps ≡ ok (some admin_area))
    × (find_matching regex host (codes "/") apps ≡ ok (some one_host))
    × (find_matching regex (codes "other") (codes "/") apps ≡ ok none)
unfolding policy
find_matching_tests = (refl, refl, refl)

find_matching-eq-decide_example :
    find_matching regex host (codes "/") apps
    ≡ decide (of_score regex host (codes "/") (best regex host (codes "/") apps) apps)
find_matching-eq-decide_example = find_matching-eq-decide regex host (codes "/") apps

-- In the place of the uuid crate: `3` is an id, nothing else is.
abbrev parse_uuid : ParseUuid
parse_uuid text = if same text (codes "3") then some 3 else none

abbrev db : Tables
db = record {
  users = 7 ∷ [];
  roles = record { id = 3; name = codes "ops"; description = none } ∷ [];
  user_roles = [];
}

abbrev emptied : Tables
emptied = record { users = 7 ∷ []; roles = []; user_roles = [] }

check_access_resolved_iff_example :
    (check_access_resolved parse_uuid db any_host (codes "ops" ∷ []) ≡ true)
    ↔ (any_host.required_roles ≡ [])
      ⊎ Any (Grants parse_uuid db (codes "ops" ∷ [])) any_host.required_roles
check_access_resolved_iff_example =
    check_access_resolved_iff parse_uuid db any_host (codes "ops" ∷ [])

-- In the place of the url crate: two URIs parse.
abbrev parse_url : Text → Option Url
parse_url text =
    if same text (codes "https://app/cb")
    then some (record { scheme = codes "https"; host_str = some (codes "app"); fragment = none })
    else if same text (codes "http://app/cb")
    then some (record { scheme = codes "http"; host_str = some (codes "app"); fragment = none })
    else none

abbrev crates : Crates
crates = record {
  parse_url = parse_url;
  chars = λ text. text;
  is_alphanumeric = is_ascii_alphanumeric;
  builds = λ pattern. true;
}

input_tests :
    (validate_oidc_redirect_uri crates (codes "https://app/cb") ≡ ok tt)
    × (validate_oidc_redirect_uri crates (codes "http://app/cb")
        ≡ err "http:// redirect_uris are only allowed for localhost")
    × (validate_input crates (input host none) ≡ ok tt)
unfolding policy
input_tests = (refl, refl, refl)
