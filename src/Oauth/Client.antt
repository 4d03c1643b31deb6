-- ===== src/Oauth/Client.antt =====
-- What `token` of server/src/handlers/oauth.rs reads of a request: the client that has authenticated
-- itself, and what it presents.
use authere.Base.{
  ◌≡◌, subst, inl, inr, true, false, Option, some, List, arith, Option-cases, Bool-cases, none,
  is_empty,
}
use authere.Base.Text.{Text, same_iff}
use authere.Base.Errors.{ok, Result-cases}
use authere.Http.{Headers}
use authere.Application.{Application, verify_client_secret}
use authere.Oauth.{Crates, get_by_oidc_client_id, given}
use authere.Oauth.Trusted.{given_sound, none-of_is_some}
use authere.Oauth.Exchange.{
  TokenForm, Credentials, Presented, authorization, parse_basic_auth, conflicts, read_credentials,
  is_authenticated, authenticate_client, read_presented,
}

-- What the form presents.
pub record IsPresented (form : TokenForm) (presented : Presented) : Type 0 where
  pub code : form.code ≡ some presented.code
  pub redirect_uri : form.redirect_uri ≡ some presented.redirect_uri
  pub code_verifier : form.code_verifier ≡ some presented.code_verifier

pub read_presented_sound :
    (form : TokenForm) (presented : Presented)
    → read_presented form ≡ ok presented
    → IsPresented form presented
unfolding read_presented
read_presented_sound form presented h = elim (Option-cases (given form.code)) [
  | inl missing ↦ ground arith
  | inr (code, e) ↦ elim (Option-cases (given form.redirect_uri)) [
    | inl missing ↦ ground arith
    | inr (uri, e2) ↦ elim (Option-cases (given form.code_verifier)) [
      | inl missing ↦ ground arith
      | inr (verifier, e3) ↦
          let same_presented : record { code = code; redirect_uri = uri; code_verifier = verifier }
              ≡ presented =
            ground arith in
          subst (IsPresented form) same_presented (record {
            code = given_sound form.code code e;
            redirect_uri = given_sound form.redirect_uri uri e2;
            code_verifier = given_sound form.code_verifier verifier e3;
          })
    ]
  ]
]

module _ (crates : Crates) where
  -- Where a client's name and secret are given: in one `Authorization` header, or in the form.
  pub data IsNamed (headers : Headers) (form : TokenForm) (credentials : Credentials) : Type 0 where
    by_header :
        (secret : Text)
        → parse_basic_auth crates headers ≡ some (credentials.client_id, secret)
        → credentials.secret ≡ some secret
        → form.client_secret ≡ none
        → IsNamed headers form credentials
    by_form :
        is_empty (headers authorization) ≡ true
        → form.client_id ≡ some credentials.client_id
        → credentials.secret ≡ form.client_secret
        → IsNamed headers form credentials

  -- Why a client is authenticated: it is public, or the secret's hash is the stored one.
  pub data IsProved (app : Application) (secret : Option Text) : Type 0 where
    by_nothing : app.oidc_confidential ≡ false → IsProved app secret
    by_secret :
        (given_secret hash : Text)
        → secret ≡ some given_secret
        → app.oidc_client_secret_hash ≡ some hash
        → crates.hash_secret given_secret ≡ hash
        → IsProved app secret

  -- The client that a request comes from.
  pub record IsAuthenticated (headers : Headers) (form : TokenForm) (apps : List Application)
      (app : Application) : Type 0 where
    pub credentials : Credentials
    pub named : IsNamed headers form credentials
    pub found : get_by_oidc_client_id credentials.client_id apps ≡ some app
    pub enabled : app.enabled ≡ true
    pub proved : IsProved app credentials.secret

  is_authenticated-IsProved :
      (app : Application) (secret : Option Text)
      → is_authenticated crates app secret ≡ true
      → IsProved app secret
  unfolding is_authenticated verify_client_secret
  is_authenticated-IsProved app secret h = elim (Bool-cases app.oidc_confidential) [
    | inr is_public ↦ by_nothing is_public
    | inl confidential ↦ elim (Option-cases secret) [
      | inl missing ↦ ground arith
      | inr (s, e) ↦ elim (Option-cases app.oidc_client_secret_hash) [
        | inl missing ↦ ground arith
        | inr (hash, stored) ↦
            by_secret s hash e stored ((same_iff (crates.hash_secret s) hash).0 (ground arith))
      ]
    ]
  ]

  read_credentials-IsNamed :
      (headers : Headers) (form : TokenForm) (credentials : Credentials)
      → read_credentials crates headers form ≡ ok credentials
      → IsNamed headers form credentials
  unfolding read_credentials conflicts
  read_credentials-IsNamed headers form credentials h =
      elim (Option-cases (parse_basic_auth crates headers)) [
        | inr ((id, secret), basic) ↦ elim (Option-cases (given (some id))) [
          | inl missing ↦ ground arith
          | inr (name, e) ↦
              let same_name = given_sound (some id) name e in
              let made : record { client_id = name; secret = some secret } ≡ credentials =
                ground arith in
              by_header secret (ground arith) (ground arith)
                (none-of_is_some form.client_secret (ground arith))
        ]
        | inl no_header ↦ elim (Option-cases (given form.client_id)) [
          | inl missing ↦ ground arith
          | inr (name, e) ↦
              let same_name = given_sound form.client_id name e in
              let made : record { client_id = name; secret = form.client_secret } ≡ credentials =
                ground arith in
              by_form (ground arith) (ground arith) (ground arith)
        ]
      ]

  pub authenticate_client-IsAuthenticated :
      (headers : Headers) (form : TokenForm) (apps : List Application) (app : Application)
      → authenticate_client crates headers form apps ≡ ok app
      → IsAuthenticated headers form apps app
  unfolding authenticate_client
  authenticate_client-IsAuthenticated headers form apps app h =
      elim (Result-cases (read_credentials crates headers form)) [
        | inr (e, bad) ↦ ground arith
        | inl (credentials, read) ↦
            elim (Option-cases (get_by_oidc_client_id credentials.client_id apps)) [
              | inl missing ↦ ground arith
              | inr (other, found) ↦
                  let same_app : other ≡ app = ground arith in
                  subst (IsAuthenticated headers form apps) same_app (record {
                    credentials = credentials;
                    named = read_credentials-IsNamed headers form credentials read;
                    found = found;
                    enabled = ground arith;
                    proved = is_authenticated-IsProved other credentials.secret (ground arith);
                  })
            ]
      ]
