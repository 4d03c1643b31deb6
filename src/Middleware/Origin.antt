-- ===== src/Middleware/Origin.antt =====
-- What server/src/browser_security.rs keeps from the handlers.
use authere.Base.{
  ◌≡◌, ◌≢◌, refl, true, false, ◌⊎◌, inl, inr, List, [], none, some, arith, Bool-cases, Option-cases,
}
use authere.Base.Text.{Text, codes, same, same_iff, starts_with, contains}
use authere.Base.Rows.{find, delete_where}
use authere.Http.{ToStr, get_header}
use authere.Middleware.{
  Method, get, head, options, post, other, Request, Reply, is_safe, is_oidc_logout, is_sensitive,
  has_field, insert, with_headers, is_listed, is_site_allowed, is_allowed, protect_browser_requests,
}

-- The paths whose replies are not to be stored.
pub data IsPrivate (path : Text) : Type 0 where
  api : starts_with path (codes "/api/") ≡ true → IsPrivate path
  oauth : starts_with path (codes "/oauth/") ≡ true → IsPrivate path
  gateway : starts_with path (codes "/.authere/") ≡ true → IsPrivate path

abbrev pub Has : Reply → Text → Text → Type 0
Has reply name value = find (has_field name) reply.fields ≡ some (name, value)

-- The reply with the headers that are set.
pub record IsCarried (path : Text) (reply after : Reply) : Type 0 where
  pub status : after.status ≡ reply.status
  pub type_kept : Has after (codes "x-content-type-options") (codes "nosniff")
  pub unframed : Has after (codes "x-frame-options") (codes "DENY")
  pub unreferred : Has after (codes "referrer-policy") (codes "no-referrer")
  pub not_stored : IsPrivate path → Has after (codes "cache-control") (codes "no-store")
  pub not_cached : IsPrivate path → Has after (codes "pragma") (codes "no-cache")

IsPrivate-is_sensitive : (path : Text) → IsPrivate path → is_sensitive path ≡ true
IsPrivate-is_sensitive path (api h) = ground arith
IsPrivate-is_sensitive path (oauth h) = ground arith
IsPrivate-is_sensitive path (gateway h) = ground arith

with_headers-IsCarried :
    (path : Text) (reply : Reply) → IsCarried path reply (with_headers (is_sensitive path) reply)
unfolding with_headers insert delete_where find same
with_headers-IsCarried path reply = elim (Bool-cases (is_sensitive path)) [
  | inl sensitive ↦ rw sensitive (record {
    status = refl;
    type_kept = refl;
    unframed = refl;
    unreferred = refl;
    not_stored = λ _. refl;
    not_cached = λ _. refl;
  })
  | inr plain ↦ rw plain (record {
    status = refl;
    type_kept = refl;
    unframed = refl;
    unreferred = refl;
    not_stored = λ p. let h = IsPrivate-is_sensitive path p in cc;
    not_cached = λ p. let h = IsPrivate-is_sensitive path p in cc;
  })
]

module _ (to_str : ToStr) (allowed_origins : List Text) where
  -- why a request may pass
  pub data MayPass (request : Request) : Type 0 where
    getting : request.method ≡ get → MayPass request
    heading : request.method ≡ head → MayPass request
    asking_options : request.method ≡ options → MayPass request
    logout : request.method ≡ post → request.path ≡ codes "/oauth/end_session" → MayPass request
    own_origin :
        (value origin : Text)
        → get_header (codes "origin") request.headers ≡ some value
        → to_str value ≡ some origin
        → contains allowed_origins origin ≡ true
        → origin ≢ codes "null"
        → MayPass request
    no_metadata :
        get_header (codes "origin") request.headers ≡ none
        → get_header (codes "sec-fetch-site") request.headers ≡ none
        → MayPass request
    same_site :
        (site : Text)
        → get_header (codes "origin") request.headers ≡ none
        → get_header (codes "sec-fetch-site") request.headers ≡ some site
        → (site ≡ codes "same-origin") ⊎ (site ≡ codes "none")
        → MayPass request

  method-MayPass :
      (request : Request) (m : Method) → request.method ≡ m → is_safe m ≡ true → MayPass request
  method-MayPass request get e h = getting e
  method-MayPass request head e h = heading e
  method-MayPass request options e h = asking_options e
  method-MayPass request post e h = cc
  method-MayPass request other e h = cc

  logout-MayPass :
      (request : Request) (m : Method)
      → request.method ≡ m
      → is_oidc_logout request ≡ true
      → MayPass request
  logout-MayPass request post e h =
      logout e ((same_iff request.path (codes "/oauth/end_session")).0 (ground arith))
  logout-MayPass request get e h = ground arith
  logout-MayPass request head e h = ground arith
  logout-MayPass request options e h = ground arith
  logout-MayPass request other e h = ground arith

  is_allowed-MayPass :
      (request : Request)
      → is_allowed to_str allowed_origins request.headers ≡ true
      → MayPass request
  unfolding is_allowed is_listed is_site_allowed
  is_allowed-MayPass request h = elim (Option-cases (get_header (codes "origin") request.headers)) [
    | inl missing ↦ elim (Option-cases (get_header (codes "sec-fetch-site") request.headers)) [
      | inl unknown ↦ no_metadata missing unknown
      | inr (site, e) ↦ elim (Bool-cases (same site (codes "same-origin"))) [
        | inl own ↦ same_site site missing e (inl ((same_iff site (codes "same-origin")).0 own))
        | inr foreign ↦
            same_site site missing e (inr ((same_iff site (codes "none")).0 (ground arith)))
      ]
    ]
    | inr (value, e) ↦ elim (Option-cases (to_str value)) [
      | inl unreadable ↦ ground arith
      | inr (origin, read) ↦
          own_origin value origin e read (ground arith)
            (λ null. ground (arith, same_iff origin (codes "null")))
    ]
  ]

  MayPass-not_refused :
      (request : Request)
      → MayPass request
      → is_safe request.method ≡ false
      → is_oidc_logout request ≡ false
      → is_allowed to_str allowed_origins request.headers ≡ true
  unfolding is_allowed is_listed is_site_allowed
  MayPass-not_refused request (getting e) unsafe plain = absurd (ground arith)
  MayPass-not_refused request (heading e) unsafe plain = absurd (ground arith)
  MayPass-not_refused request (asking_options e) unsafe plain = absurd (ground arith)
  MayPass-not_refused request (logout e path) unsafe plain =
      let s = (same_iff request.path (codes "/oauth/end_session")).1 path in absurd (ground arith)
  MayPass-not_refused request (own_origin value origin there read listed clear) unsafe plain =
      elim (Bool-cases (same origin (codes "null"))) [
        | inl null ↦ absurd (clear ((same_iff origin (codes "null")).0 null))
        | inr known ↦ ground arith
      ]
  MayPass-not_refused request (no_metadata missing unknown) unsafe plain = ground arith
  MayPass-not_refused request (same_site site missing e (inl own)) unsafe plain =
      let s = (same_iff site (codes "same-origin")).1 own in ground arith
  MayPass-not_refused request (same_site site missing e (inr direct)) unsafe plain =
      let s = (same_iff site (codes "none")).1 direct in ground arith

  -- A request may pass if its method is GET, HEAD or OPTIONS, or it is the post of a logout, or its
  -- origin is listed and not opaque, or it names no origin and its fetch metadata, where there are
  -- some, say that it comes from the site or from the user. A request that may not pass is refused
  -- and leaves the state as it was. Any other reaches the handler, whose reply then carries the
  -- headers that forbid sniffing, framing and referrers, and on the paths of the API, of OAuth and of
  -- the gateway those that forbid storing it.
  pub protect_browser_requests_cases {ℓ} :
      {S : Type ℓ}
      → (next : Request → S → Reply × S) (request : Request) (state : S)
      → ((¬ MayPass request)
          × (protect_browser_requests to_str allowed_origins next request state
              ≡ (record { status = 403; fields = [] }, state)))
        ⊎ (MayPass request
            × IsCarried request.path
                (next request state).0
                (protect_browser_requests to_str allowed_origins next request state).0
            × ((protect_browser_requests to_str allowed_origins next request state).1
                ≡ (next request state).1))
  unfolding protect_browser_requests
  protect_browser_requests_cases next request state =
      let carried = with_headers-IsCarried request.path (next request state).0 in
      elim (Bool-cases (is_safe request.method)) [
        | inl safe ↦
            inr (method-MayPass request request.method refl safe, rw (safe) carried, rw (safe) refl)
        | inr unsafe ↦ elim (Bool-cases (is_oidc_logout request)) [
          | inl is_logout ↦ inr (
            logout-MayPass request request.method refl is_logout,
            rw (unsafe, is_logout) carried,
            rw (unsafe, is_logout) refl,
          )
          | inr plain ↦ elim (Bool-cases (is_allowed to_str allowed_origins request.headers)) [
            | inl allowed ↦ inr (
              is_allowed-MayPass request allowed,
              rw (unsafe, plain, allowed) carried,
              rw (unsafe, plain, allowed) refl,
            )
            | inr foreign ↦ inl (
              λ may. let h = MayPass-not_refused request may unsafe plain in cc,
              rw (unsafe, plain, foreign) refl,
            )
          ]
        ]
      ]
