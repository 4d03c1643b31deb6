-- ===== src/Oauth/Trusted.antt =====
-- What the checks of `authorize` on the client and on the parameters let through.
use authere.Base.{
  ◌≡◌, refl, ap, subst, inl, inr, true, false, not, Option, none, some, List, [], any, length,
  arith, Option-cases, unwrap_or, is_some,
}
use authere.Base.Text.{Text, codes, same, same_iff}
use authere.Base.Errors.{ok}
use authere.Application.{Application}
use authere.Application.Access.{validate_redirect_uri}
use authere.Oidc.Token.{parse_scope, scope_contains}
use authere.Oauth.{Crates, get_by_oidc_client_id, given}
use authere.Oauth.Authorize.{
  AuthorizeQuery, Client, Wanted, check_client, check_parameters, check_challenge,
  is_s256_challenge, is_known_scope,
}

pub given_sound : (o : Option Text) (s : Text) → given o ≡ some s → o ≡ some s
unfolding given
given_sound none s h = cc
given_sound (some t) s h = ground arith

-- A client that exists, is enabled, and has registered the redirect URI.
pub record IsTrusted (q : AuthorizeQuery) (apps : List Application) (client : Client) : Type 0 where
  pub client_id : Text
  pub presented : q.client_id ≡ some client_id
  pub found : get_by_oidc_client_id client_id apps ≡ some client.app
  pub enabled : client.app.enabled ≡ true
  pub asked : q.redirect_uri ≡ some client.redirect_uri
  pub registered : validate_redirect_uri client.app client.redirect_uri ≡ true

pub IsTrusted-check_client :
    (q : AuthorizeQuery) (apps : List Application) (client : Client)
    → check_client q apps ≡ ok client
    → IsTrusted q apps client
unfolding check_client
IsTrusted-check_client q apps client h = elim (Option-cases (given q.client_id)) [
  | inl missing ↦ ground arith
  | inr (client_id, e) ↦ elim (Option-cases (given q.redirect_uri)) [
    | inl missing ↦ ground arith
    | inr (uri, e2) ↦ elim (Option-cases (get_by_oidc_client_id client_id apps)) [
      | inl missing ↦ ground arith
      | inr (app, found) ↦
          let same_client : record { app = app; redirect_uri = uri } ≡ client = ground arith in
          subst (IsTrusted q apps) same_client (record {
            client_id = client_id;
            presented = given_sound q.client_id client_id e;
            found = found;
            enabled = ground arith;
            asked = given_sound q.redirect_uri uri e2;
            registered = ground arith;
          })
    ]
  ]
]

-- A request for a code with an S256 challenge, for scopes that the server knows.
pub record IsWanted (crates : Crates) (q : AuthorizeQuery) (wanted : Wanted) : Type 0 where
  pub code : q.response_type ≡ some (codes "code")
  pub method : q.code_challenge_method ≡ some (codes "S256")
  pub challenge : q.code_challenge ≡ some wanted.challenge
  pub sized : length wanted.challenge ≡ 43
  pub scope : wanted.scope ≡ parse_scope (unwrap_or q.scope [])
  pub openid : scope_contains wanted.scope (codes "openid") ≡ true
  pub known : any (λ s. not (is_known_scope s)) wanted.scope ≡ false
  pub fresh : q.max_age ≡ none

-- a text option with a value
is_text :
    (o : Option Text) (t : Text) → elim o [ none ↦ false | some s ↦ same s t ] ≡ true → o ≡ some t
is_text none t h = cc
is_text (some s) t h = ap some ((same_iff s t).0 h)

is_method :
    (o : Option Text)
    → same (unwrap_or o (codes "plain")) (codes "S256") ≡ true
    → o ≡ some (codes "S256")
unfolding same
is_method none h = cc
is_method (some s) h = ap some ((same_iff s (codes "S256")).0 h)

pub none-of_is_some {ℓ} : {A : Type ℓ} (o : Option A) → is_some o ≡ false → o ≡ none
none-of_is_some none h = refl
none-of_is_some (some a) h = cc

module _ (crates : Crates) where
  check_challenge_sound :
      (q : AuthorizeQuery) (scope : List Text) (wanted : Wanted)
      → check_challenge crates q scope ≡ ok wanted
      → (q.code_challenge_method ≡ some (codes "S256"))
        × (q.code_challenge ≡ some wanted.challenge)
        × (length wanted.challenge ≡ 43)
        × (wanted.scope ≡ scope)
  unfolding check_challenge is_s256_challenge
  check_challenge_sound q scope wanted h = elim (Option-cases (given q.code_challenge)) [
    | inl missing ↦ ground arith
    | inr (challenge, e) ↦
        let method = is_method q.code_challenge_method (ground arith) in
        let presented = given_sound q.code_challenge challenge e in
        let same_wanted : record { scope = scope; challenge = challenge } ≡ wanted = ground arith in
        (method, ground arith, ground arith, ground arith)
  ]

  pub IsWanted-check_parameters :
      (q : AuthorizeQuery) (wanted : Wanted)
      → check_parameters crates q ≡ ok wanted
      → IsWanted crates q wanted
  unfolding check_parameters
  IsWanted-check_parameters q wanted h =
      let (method, challenge, sized, scope) =
        check_challenge_sound q (parse_scope (unwrap_or q.scope [])) wanted (ground arith) in
      record {
        code = is_text q.response_type (codes "code") (ground arith);
        method = method;
        challenge = challenge;
        sized = sized;
        scope = scope;
        openid = rw scope (ground arith);
        known = rw scope (ground arith);
        fresh = none-of_is_some q.max_age (ground arith);
      }
