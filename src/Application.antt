-- ===== src/Application.antt =====
-- server/src/application.rs: the applications that the server protects, the choice of the policy
-- for a request, and the access check. Texts are bytes, ids are numbers, and the regex crate, the
-- url crate and the uuid crate are parameters. The clock, fresh ids and secrets are arguments.
pub mod Policy
pub mod Selection
pub mod Outcome
pub mod Access
pub mod Input
mod Examples
use authere.Base.{
  ℕ, Bool, true, false, Option, none, some, List, [], is_some, unwrap_or, if◌then◌else◌,
}
use authere.Base.Text.{Text, codes, same}

pub data AppType : Type 0 where
  forward_auth oidc : AppType

unfoldable as_str : AppType → Text
as_str forward_auth = codes "forward_auth"
as_str oidc = codes "oidc"

unfoldable from_str : Text → Option AppType
from_str s =
    if same s (codes "forward_auth")
    then some forward_auth
    else if same s (codes "oidc")
    then some oidc
    else none

pub record Application : Type 0 where
  pub id : ℕ
  pub name : Text
  pub slug : Text
  pub app_type : AppType
  pub host_pattern : Option Text
  pub path_prefix : Option Text
  pub required_roles : List Text
  pub enabled : Bool
  pub oidc_client_id : Option Text
  pub oidc_redirect_uris : List Text
  pub oidc_post_logout_redirect_uris : List Text
  pub oidc_confidential : Bool
  pub created_at : ℕ
  pub updated_at : ℕ
  pub oidc_client_secret_hash : Option Text

pub record CreateApplicationInput : Type 0 where
  pub name : Text
  pub slug : Text
  pub app_type : Option AppType
  pub host_pattern : Option Text
  pub path_prefix : Option Text
  pub required_roles : Option (List Text)
  pub enabled : Option Bool
  pub oidc_redirect_uris : Option (List Text)
  pub oidc_post_logout_redirect_uris : Option (List Text)
  pub oidc_confidential : Option Bool

pub record UpdateApplicationInput : Type 0 where
  pub name : Option Text
  pub host_pattern : Option Text
  pub path_prefix : Option Text
  pub required_roles : Option (List Text)
  pub enabled : Option Bool
  pub oidc_redirect_uris : Option (List Text)
  pub oidc_post_logout_redirect_uris : Option (List Text)

-- `Application::new`, given the fresh id and the time.
unfoldable pub create : ℕ → ℕ → CreateApplicationInput → Application
create id now input = record {
  id = id;
  name = input.name;
  slug = input.slug;
  app_type = unwrap_or input.app_type forward_auth;
  host_pattern = input.host_pattern;
  path_prefix = input.path_prefix;
  required_roles = unwrap_or input.required_roles [];
  enabled = unwrap_or input.enabled true;
  oidc_client_id = none;
  oidc_redirect_uris = unwrap_or input.oidc_redirect_uris [];
  oidc_post_logout_redirect_uris = unwrap_or input.oidc_post_logout_redirect_uris [];
  oidc_confidential = false;
  created_at = now;
  updated_at = now;
  oidc_client_secret_hash = none;
}

module _ (hash_secret : Text → Text) where
  -- `Application::new_oidc`, given the fresh client id and secret too.
  unfoldable new_oidc : ℕ → ℕ → Text → Text → CreateApplicationInput → Application × Option Text
  unfolding create
  new_oidc id now client_id plain input =
      let app = create id now (record input { app_type = some oidc }) in
      if unwrap_or input.oidc_confidential true
      then (
        record app {
          oidc_client_id = some client_id;
          oidc_client_secret_hash = some (hash_secret plain);
          oidc_confidential = true;
        },
        some plain,
      )
      else (record app { oidc_client_id = some client_id; oidc_confidential = false }, none)

  -- `verify_client_secret`
  unfoldable pub verify_client_secret : Application → Text → Bool
  verify_client_secret app presented = elim app.oidc_client_secret_hash [
    | none ↦ false
    | some hash ↦ same (hash_secret presented) hash
  ]

-- `update`: the fields that the input gives are replaced, and the row is written.
unfoldable pub update : ℕ → UpdateApplicationInput → Application → Application
update now input app = record app {
  name = unwrap_or input.name app.name;
  host_pattern = elim input.host_pattern [ none ↦ app.host_pattern | some p ↦ some p ];
  path_prefix = elim input.path_prefix [ none ↦ app.path_prefix | some p ↦ some p ];
  required_roles = unwrap_or input.required_roles app.required_roles;
  enabled = unwrap_or input.enabled app.enabled;
  oidc_redirect_uris = unwrap_or input.oidc_redirect_uris app.oidc_redirect_uris;
  oidc_post_logout_redirect_uris =
      unwrap_or input.oidc_post_logout_redirect_uris app.oidc_post_logout_redirect_uris;
  updated_at = now;
}
