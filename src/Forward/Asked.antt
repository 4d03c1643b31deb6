-- ===== src/Forward/Asked.antt =====
-- What the checks of `forward_redirect` and of `forward_auth_callback` on their parameters let through
-- (server/src/handlers/auth.rs).
use authere.Base.{
  ◌≡◌, ◌∙◌, ap, subst, all, length, false, inl, inr, true, some, arith, Option-cases,
}
use authere.Base.Text.{Text, codes, is_ascii_hexdigit}
use authere.Base.Errors.{ok, Result-cases}
use authere.Http.{Headers, extract_cookie}
use authere.Application.{Application}
use authere.Application.Policy.{find_matching}
use authere.Application.Outcome.{find_matching_sound}
use authere.State.{Db}
use authere.Forward.Handoff.{valid_state}
use authere.Forward.Target.{Url, Target, parse, ensure_protected_origin, from_callback}
use authere.Forward.Verify.{Proxy, find_policy}
use authere.Forward.Allowed.{find_policy_sound}
use authere.Forward.Flow.{read_redirect, read_callback}

module _ (proxy : Proxy) where
  -- A target that is not on the server's own origin.
  abbrev pub IsForeign : Target → Type 0
  IsForeign target =
      (auth : Url)
      → proxy.urls.parse_url proxy.origin ≡ some auth
      → proxy.urls.same_origin auth target.url ≡ false

  ensure-IsForeign :
      (target : Target)
      → ensure_protected_origin proxy.urls proxy.origin target ≡ ok tt
      → IsForeign target
  unfolding ensure_protected_origin
  ensure-IsForeign target h auth parsed = ground arith

  -- The origin that a browser calls, and the nonce that it was given there at the start.
  pub record IsCalled (headers : Headers) (here : Target) (nonce : Text) : Type 0 where
    pub called : from_callback proxy.urls proxy.to_str headers (codes "/") ≡ ok here
    pub foreign : IsForeign here
    pub bound :
        extract_cookie proxy.to_str headers (codes "__Host-authere_forward_state") ≡ some nonce

  pub read_callback-IsCalled :
      (headers : Headers) (here : Target) (nonce : Text)
      → read_callback proxy headers ≡ ok (here, nonce)
      → IsCalled headers here nonce
  unfolding read_callback
  read_callback-IsCalled headers here nonce h =
      elim (Result-cases (from_callback proxy.urls proxy.to_str headers (codes "/"))) [
        | inr (e, bad) ↦ ground arith
        | inl (target, there) ↦
            elim (Result-cases (ensure_protected_origin proxy.urls proxy.origin target)) [
              | inr (e, own) ↦ ground arith
              | inl (u, foreign) ↦
                  elim (Option-cases
                    (extract_cookie proxy.to_str headers (codes "__Host-authere_forward_state"))) [
                      | inl missing ↦ ground arith
                      | inr (cookie, found) ↦
                          let same_target : target ≡ here = ground arith in
                          let same_nonce : cookie ≡ nonce = ground arith in
                          record {
                            called = there ∙ ap ok same_target;
                            foreign = subst IsForeign same_target (ensure-IsForeign target foreign);
                            bound = found ∙ ap some same_nonce;
                          }
                    ]
            ]
      ]

  -- What a handoff is asked for: a target on another origin, with an enabled policy.
  pub record IsAskedFor (redirect_uri state : Text) (db : Db) (target : Target) (app : Application)
      : Type 0 where
    pub asked : parse proxy.urls redirect_uri ≡ ok target
    pub foreign : IsForeign target
    pub sized : length state ≡ 64
    pub digits : all is_ascii_hexdigit state ≡ true
    pub policy :
        find_matching proxy.regex target.host target.policy_path db.applications ≡ ok (some app)
    pub enabled : app.enabled ≡ true

  pub read_redirect-IsAskedFor :
      (redirect_uri state : Text) (db : Db) (target : Target) (app : Application)
      → read_redirect proxy redirect_uri state db ≡ ok (target, app)
      → IsAskedFor redirect_uri state db target app
  unfolding read_redirect valid_state
  read_redirect-IsAskedFor redirect_uri state db target app h =
      elim (Result-cases (parse proxy.urls redirect_uri)) [
        | inr (e, bad) ↦ ground arith
        | inl (t, asked) ↦ elim (Result-cases (ensure_protected_origin proxy.urls proxy.origin t)) [
          | inr (e, own) ↦ ground arith
          | inl (u, foreign) ↦ elim (Result-cases (find_policy proxy t db)) [
            | inr (e, nothing) ↦ ground arith
            | inl (a, policy) ↦
                let same_target : t ≡ target = ground arith in
                let same_app : a ≡ app = ground arith in
                let found = find_policy_sound proxy t db a policy in
                let (enabled, _, _, _) =
                  find_matching_sound proxy.regex t.host t.policy_path db.applications a found in
                subst (λ x. IsAskedFor redirect_uri state db x app) same_target
                  (subst (IsAskedFor redirect_uri state db t) same_app (record {
                    asked = asked;
                    foreign = ensure-IsForeign t foreign;
                    sized = ground arith;
                    digits = ground arith;
                    policy = found;
                    enabled = enabled;
                  }))
          ]
        ]
      ]
