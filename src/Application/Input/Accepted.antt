-- ===== src/Application/Input/Accepted.antt =====
-- What `validate_input` and `validate_oidc_redirect_uri` of server/src/application.rs accept.
use authere.Base.{
  ◌≤◌, ◌≡◌, ◌≢◌, refl, ◌⊎◌, ◌↔◌, inl, inr, Bool, true, false, ◌||◌, none, some, String, List, [],
  ◌∷◌, ◌++◌, arith, length, all, unwrap_or, ◌==◌, All, Bool-cases, Option-cases,
}
use authere.Base.Text.{Text, codes, same, same_iff}
use authere.Base.Errors.{Result, ok, err}
use authere.Application.{AppType, forward_auth, oidc, CreateApplicationInput}
use authere.Application.Input.{
  Url, Crates, is_loopback, unless, report, check_scheme, validate_oidc_redirect_uri, uri_errors,
  type_errors, validate_input,
}

-- https, or http to the own machine, or a scheme of its own.
abbrev IsAllowedScheme : Url → Type 0
IsAllowedScheme url =
    (url.scheme ≡ codes "https")
    ⊎ ((url.scheme ≡ codes "http") × (is_loopback (unwrap_or url.host_str []) ≡ true)
        ⊎ (url.scheme ≢ codes "http") × (url.scheme ≢ []))

report-eq-ok : (errors : List String) → report errors ≡ ok tt → errors ≡ []
unfolding report
report-eq-ok [] h = refl
report-eq-ok (e ∷ es) h = cc

append-eq-nil {ℓ} : {A : Type ℓ} (xs ys : List A) → xs ++ ys ≡ [] → (xs ≡ []) × (ys ≡ [])
append-eq-nil [] ys h = (refl, h)
append-eq-nil (x ∷ xs) ys h = cc

unless-append :
    (test : Bool) (message : String) (rest : List String)
    → unless test message ++ rest ≡ []
    → (test ≡ true) × (rest ≡ [])
unfolding unless
unless-append true message rest h = (refl, h)
unless-append false message rest h = cc

ok-cases {κ} : {E : Type κ} (r : Result (Unit {0}) E) → (r ≡ ok tt) ⊎ ((e : E) × (r ≡ err e))
ok-cases (ok tt) = inl refl
ok-cases (err e) = inr (e, refl)

module _ (crates : Crates) where
  open crates use {parse_url, chars, is_alphanumeric, builds}

  scheme_sound : (url : Url) → check_scheme crates url ≡ ok tt → IsAllowedScheme url
  unfolding check_scheme
  scheme_sound url h = elim (Bool-cases (same url.scheme (codes "https"))) [
    | inl secure ↦ inl ((same_iff _ _).0 secure)
    | inr other ↦ elim (Bool-cases (same url.scheme (codes "http"))) [
      | inl http ↦ inr (inl ((same_iff _ _).0 http, ground arith))
      | inr custom ↦ inr (inr (ground (arith, same_iff url.scheme (codes "http")), ground arith))
    ]
  ]

  scheme_complete : (url : Url) → IsAllowedScheme url → check_scheme crates url ≡ ok tt
  unfolding check_scheme
  scheme_complete url (inl secure) = let s = (same_iff _ _).1 secure in ground arith
  scheme_complete url (inr (inl (http, local))) =
      let s = (same_iff _ _).1 http in ground (arith, local)
  scheme_complete url (inr (inr (other, some_scheme))) =
      ground (arith, other, some_scheme, same_iff url.scheme (codes "http"))

  -- A redirect URI that may be registered: it parses, has no fragment, and has such a scheme.
  abbrev IsRedirect : Text → Type 0
  IsRedirect uri =
      (url : Url) × (parse_url uri ≡ some url) × (url.fragment ≡ none) × IsAllowedScheme url

  IsRedirect-sound : (uri : Text) → validate_oidc_redirect_uri crates uri ≡ ok tt → IsRedirect uri
  unfolding validate_oidc_redirect_uri
  IsRedirect-sound uri h = elim (Option-cases (parse_url uri)) [
    | inl bad ↦ ground arith
    | inr (url, parsed) ↦ (url, parsed, ground arith, scheme_sound url (ground arith))
  ]

  IsRedirect-complete :
      (uri : Text) → IsRedirect uri → validate_oidc_redirect_uri crates uri ≡ ok tt
  unfolding validate_oidc_redirect_uri
  IsRedirect-complete uri (url, parsed, plain, allowed) =
      let valid = scheme_complete url allowed in ground arith

  -- A redirect URI is accepted exactly if it parses, has no fragment, and is https, or http to the
  -- own machine, or of a scheme other than these.
  validate_oidc_redirect_uri_iff :
      (uri : Text) → (validate_oidc_redirect_uri crates uri ≡ ok tt) ↔ IsRedirect uri
  validate_oidc_redirect_uri_iff uri = (IsRedirect-sound uri, IsRedirect-complete uri)

  uri_errors_sound : (uris : List Text) → uri_errors crates uris ≡ [] → All IsRedirect uris
  unfolding uri_errors
  uri_errors_sound [] h = tt
  uri_errors_sound (uri ∷ uris) h = elim (ok-cases (validate_oidc_redirect_uri crates uri)) [
    | inl valid ↦ (IsRedirect-sound uri valid, uri_errors_sound uris (ground arith))
    | inr (e, bad) ↦ ground arith
  ]

  uri_errors_complete : (uris : List Text) → All IsRedirect uris → uri_errors crates uris ≡ []
  unfolding uri_errors
  uri_errors_complete [] h = refl
  uri_errors_complete (uri ∷ uris) (here, later) =
      let valid = IsRedirect-complete uri here in
      let rest = uri_errors_complete uris later in ground arith

  -- What the kind of the application asks for.
  abbrev IsTyped : AppType → CreateApplicationInput → Type 0
  IsTyped forward_auth input =
      (pattern : Text) × (input.host_pattern ≡ some pattern)
      × (pattern ≢ [])
      × (builds pattern ≡ true)
  IsTyped oidc input =
      (unwrap_or input.oidc_redirect_uris [] ≢ [])
      × All IsRedirect (unwrap_or input.oidc_redirect_uris [])
      × All IsRedirect (unwrap_or input.oidc_post_logout_redirect_uris [])

  type_errors_sound :
      (app_type : AppType) (input : CreateApplicationInput)
      → type_errors crates app_type input ≡ []
      → IsTyped app_type input
  unfolding type_errors
  type_errors_sound forward_auth input h =
      let (given, regex) = unless-append _ _ _ h in
      elim (Option-cases input.host_pattern) [
        | inl missing ↦ ground (arith, given)
        | inr (pattern, present) ↦
            (pattern, present, ground (arith, given), unfold unless in ground (arith, given, regex))
      ]
  type_errors_sound oidc input h =
      let (some_uri, uris) = unless-append _ _ _ h in
      let (redirects, logouts) = append-eq-nil _ _ uris in
      (ground (arith, some_uri), uri_errors_sound _ redirects, uri_errors_sound _ logouts)

  type_errors_complete :
      (app_type : AppType) (input : CreateApplicationInput)
      → IsTyped app_type input
      → type_errors crates app_type input ≡ []
  unfolding type_errors unless
  type_errors_complete forward_auth input (pattern, given, nonempty, valid) =
      ground (arith, nonempty)
  type_errors_complete oidc input (nonempty, redirects, logouts) =
      let a = uri_errors_complete _ redirects in
      let b = uri_errors_complete _ logouts in ground (arith, nonempty)

  pub record IsAcceptable (input : CreateApplicationInput) : Type 0 where
    pub named : input.name ≢ []
    pub name_fits : length input.name ≤ 128
    pub slugged : input.slug ≢ []
    pub slug_fits : length input.slug ≤ 64
    pub slug_plain :
        all (λ c. is_alphanumeric c || c == b'-' || c == b'_') (chars input.slug) ≡ true
    pub typed : IsTyped (unwrap_or input.app_type forward_auth) input

  input_sound :
      (input : CreateApplicationInput) → validate_input crates input ≡ ok tt → IsAcceptable input
  unfolding validate_input
  input_sound input h =
      let (name_ok, rest) = unless-append _ _ _ (report-eq-ok _ h) in
      let (slug_ok, rest') = unless-append _ _ _ rest in
      let (plain_ok, type_ok) = unless-append _ _ _ rest' in
      record {
        named = ground (arith, name_ok);
        name_fits = ground (arith, name_ok);
        slugged = ground (arith, slug_ok);
        slug_fits = ground (arith, slug_ok);
        slug_plain = plain_ok;
        typed = type_errors_sound _ input type_ok;
      }

  input_complete :
      (input : CreateApplicationInput) → IsAcceptable input → validate_input crates input ≡ ok tt
  unfolding validate_input report unless
  input_complete input a =
      let typed = type_errors_complete _ input a.typed in
      ground (arith, a.named, a.name_fits, a.slugged, a.slug_fits, a.slug_plain)

  -- An input is accepted exactly if its name and slug are within their lengths, the slug is of
  -- plain characters, and it has what its type asks for: a host pattern that builds, or at least
  -- one redirect URI and none that may not be registered.
  validate_input_iff :
      (input : CreateApplicationInput) → (validate_input crates input ≡ ok tt) ↔ IsAcceptable input
  validate_input_iff input = (input_sound input, input_complete input)
