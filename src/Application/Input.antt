-- ===== src/Application/Input.antt =====
-- application.rs: `validate_input` and `validate_oidc_redirect_uri`. The url and regex crates and
-- the character classes of the standard library are parameters.
pub mod Accepted
use authere.Base.{
  ℕ, ◌≤◌, ◌<◌, ◌≡◌, ◌≢◌, refl, ◌⊎◌, ◌↔◌, inl, inr, Bool, true, false, not, ◌&&◌, ◌||◌, Option, none,
  some, String, List, [], ◌∷◌, ◌++◌, arith, length, all, is_empty, is_some, unwrap_or, ltb, ◌==◌,
  All, Bool-cases, if◌then◌else◌,
}
use mathlib.Core.List.{append-nil}
use authere.Base.Text.{Text, codes, same, same_iff}
use authere.Base.Errors.{AppError, input_error, Result, ok, err}
use authere.Application.{AppType, forward_auth, oidc, CreateApplicationInput}

-- What `url::Url::parse` makes of a text, as far as the program looks at it.
pub record Url : Type 0 where
  pub scheme : Text
  pub host_str : Option Text
  pub fragment : Option Text

-- The parameters: `Url::parse`, `chars`, `char::is_alphanumeric`, and whether the regex
-- `^(?:…)$` builds within the size limit.
pub record Crates : Type 0 where
  pub parse_url : Text → Option Url
  pub chars : Text → List ℕ
  pub is_alphanumeric : ℕ → Bool
  pub builds : Text → Bool

abbrev pub is_loopback : Text → Bool
is_loopback host =
    same host (codes "localhost") || same host (codes "127.0.0.1") || same host (codes "[::1]")

-- An error list that is empty on success.
unfoldable pub unless : Bool → String → List String
unless test message = if test then [] else message ∷ []

-- `if errors.is_empty() { Ok(()) } else { Err(InputError(errors)) }`
unfoldable pub report : List String → Result (Unit {0}) AppError
report [] = ok tt
report (e ∷ es) = err (input_error (e ∷ es))

module _ (crates : Crates) where
  open crates use {parse_url, chars, is_alphanumeric, builds}

  unfoldable pub check_scheme : Url → Result (Unit {0}) String
  check_scheme url =
      if same url.scheme (codes "https")
      then ok tt
      else if same url.scheme (codes "http")
      then (if is_loopback (unwrap_or url.host_str [])
          then ok tt
          else err "http:// redirect_uris are only allowed for localhost")
      else if not (is_empty url.scheme)
      then ok tt
      else err "redirect_uri has no scheme"

  -- `validate_oidc_redirect_uri`
  unfoldable pub validate_oidc_redirect_uri : Text → Result (Unit {0}) String
  validate_oidc_redirect_uri uri = elim (parse_url uri) [
    | none ↦ err "redirect_uri is not a valid URL"
    | some url ↦
        if is_some url.fragment
        then err "redirect_uri must not contain a fragment"
        else check_scheme url
  ]

  -- the two loops over URIs, with what the second puts before a message
  unfoldable pub uri_errors : List Text → List String
  uri_errors [] = []
  uri_errors (uri ∷ uris) =
      let rest = uri_errors uris in
      elim (validate_oidc_redirect_uri uri) [ ok _ ↦ rest | err e ↦ e ∷ rest ]

  unfoldable pub type_errors : AppType → CreateApplicationInput → List String
  type_errors forward_auth input =
      unless (not (is_empty (unwrap_or input.host_pattern [])))
        "Forward-auth apps require a host pattern"
      ++ elim input.host_pattern [
        | none ↦ []
        | some pattern ↦ unless (is_empty pattern || builds pattern) "Invalid host pattern regex"
      ]
  type_errors oidc input =
      unless (not (is_empty (unwrap_or input.oidc_redirect_uris [])))
        "OIDC apps require at least one redirect URI"
      ++ (uri_errors (unwrap_or input.oidc_redirect_uris [])
          ++ uri_errors (unwrap_or input.oidc_post_logout_redirect_uris []))

  -- `validate_input`
  unfoldable pub validate_input : CreateApplicationInput → Result (Unit {0}) AppError
  validate_input input = report (
      unless (not (is_empty input.name) && not (ltb 128 (length input.name)))
        "Application name must be between 1 and 128 characters"
      ++ (unless (not (is_empty input.slug) && not (ltb 64 (length input.slug)))
            "Slug must be between 1 and 64 characters"
          ++ (unless (all (λ c. is_alphanumeric c || c == b'-' || c == b'_') (chars input.slug))
                "Slug must contain only alphanumeric characters, hyphens, and underscores"
              ++ type_errors (unwrap_or input.app_type forward_auth) input)))
