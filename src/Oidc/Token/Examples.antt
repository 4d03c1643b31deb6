-- ===== src/Oidc/Token/Examples.antt =====
-- A scope, and the tokens that are minted for a client.
use authere.Base.{◌≡◌, refl, true, false, none, some, [], ◌∷◌}
use authere.Base.Text.{codes, same}
use authere.Base.Errors.{ok}
use authere.Http.{split_whitespace, white_len, words_from}
use authere.Application.{Application, oidc}
use authere.Oidc.Token.{
  TokenResponse, Signer, Subject, Origin, parse_scope, unique_from, join_scope,
  build_id_token_claims, encode_id_token, oidc_claims, generate_oidc_access_token, minted_claims,
  mint_token_pair,
}

tokens : Unit {0}
unfolding split_whitespace white_len words_from parse_scope unique_from join_scope
    build_id_token_claims encode_id_token oidc_claims generate_oidc_access_token minted_claims
    mint_token_pair same
tokens = tt

abbrev signer : Signer
signer = record {
  origin = codes "https://id";
  encode_id = λ claims. some (codes "i1");
  encode_access = λ claims. some claims.jti;
  decode_access = λ now token. none;
  show_uuid = λ id. codes "7";
}

abbrev app : Application
app = record {
  id = 3;
  name = codes "App";
  slug = codes "app";
  app_type = oidc;
  host_pattern = none;
  path_prefix = none;
  required_roles = [];
  enabled = true;
  oidc_client_id = some (codes "c");
  oidc_redirect_uris = [];
  oidc_post_logout_redirect_uris = [];
  oidc_confidential = false;
  created_at = 0;
  updated_at = 0;
  oidc_client_secret_hash = none;
}

abbrev subject : Subject
subject = record {
  user = record {
    id = 7;
    username = codes "ada";
    name = codes "Ada";
    email = none;
    active = true;
    created_at = 1;
    updated_at = 2;
  };
  roles = [];
  scope = codes "openid" ∷ codes "roles" ∷ [];
}

abbrev origin : Origin
origin = record { nonce = none; auth_time = 900; session_version = some 0; session_exp = some 2000 }

abbrev response : TokenResponse
response = record {
  access_token = codes "o1";
  id_token = codes "i1";
  token_type = codes "Bearer";
  expires_in = 1000;
  scope = codes "openid roles";
}

token_tests :
    (parse_scope (codes "email openid email") ≡ codes "email" ∷ codes "openid" ∷ [])
    × (mint_token_pair signer (codes "o1") 1000 app subject origin ≡ ok response)
unfolding tokens
token_tests = (refl, refl)
