-- ===== src/Session/Access.antt =====
-- What an access token that is accepted shows (server/src/user/auth/token.rs).
use authere.Base.{
  ℕ, ◌<◌, ◌≡◌, subst, inl, inr, false, ◌||◌, some, leb, arith, Bool-cases, Option-cases,
}
use authere.Base.Text.{Text, codes, same, same_iff}
use authere.Base.Rows.{find, find_passes}
use authere.Base.Errors.{ok, Result-cases}
use authere.Session.{Claims, Store, Crates, of_account, verify_user_session}
use authere.Session.Tokens.{get_roles, is_past, verify_access_token, accept_session}
use authere.Session.Verified.{IsCurrent, verify_user_session_iff}

accepted_cases :
    (claims : Claims) (id : ℕ) (store : Store) (out : Claims)
    → accept_session claims id store ≡ ok out
    → IsCurrent id claims.session_version claims.iat store
      × (out ≡ record claims { roles = get_roles id store })
unfolding accept_session
accepted_cases claims id store out h =
    elim (Result-cases (verify_user_session id claims.iat claims.session_version store)) [
      | inr (e, bad) ↦ ground arith
      | inl (u, good) ↦ elim (Option-cases (find (of_account id) store.accounts)) [
        | inl missing ↦ ground arith
        | inr (account, found) ↦
            let same_id : account.id ≡ id =
              ground (arith, find_passes (of_account id) store.accounts account found) in
            let shown : out ≡ record claims { roles = get_roles account.id store } = ground arith in
            (
              (verify_user_session_iff id claims.iat claims.session_version store).0 good,
              subst (λ i. out ≡ record claims { roles = get_roles i store }) same_id shown,
            )
      ]
    ]

running :
    (claims : Claims) (now : ℕ)
    → leb claims.exp now || is_past now claims.session_exp ≡ false
    → now < claims.exp
running claims now h = ground arith

not_past :
    (claims : Claims) (now : ℕ)
    → leb claims.exp now || is_past now claims.session_exp ≡ false
    → is_past now claims.session_exp ≡ false
not_past claims now h = ground arith

module _ (crates : Crates) where
  open crates use {encode, decode, hash_token, parse_uuid, show_uuid}

  -- What holds when an access token is accepted.
  pub record IsAccepted (token : Text) (now : ℕ) (store : Store) (out : Claims) : Type 0 where
    pub claims : Claims
    pub id : ℕ
    pub decoded : decode now token ≡ some claims
    pub access : claims.typ ≡ codes "access"
    pub unexpired : now < claims.exp
    pub session_runs : is_past now claims.session_exp ≡ false
    pub subject : parse_uuid claims.sub ≡ some id
    pub current : IsCurrent id claims.session_version claims.iat store
    pub shown : out ≡ record claims { roles = get_roles id store }

  -- An access token that is accepted is one that the server signed, of the type for access, before
  -- its expiry and its session's, for a user who is active and whose sessions have not been revoked
  -- since. The claims that are returned carry the roles that the database has now.
  pub verify_access_token-IsAccepted :
      (token : Text) (now : ℕ) (store : Store) (out : Claims)
      → verify_access_token crates token now store ≡ ok out
      → IsAccepted token now store out
  unfolding verify_access_token
  verify_access_token-IsAccepted token now store out h = elim (Option-cases (decode now token)) [
    | inl bad ↦ ground arith
    | inr (claims, decoded) ↦ elim (Bool-cases (same claims.typ (codes "access"))) [
      | inr other ↦ ground arith
      | inl access ↦ elim (Bool-cases (leb claims.exp now || is_past now claims.session_exp)) [
        | inl past ↦ ground arith
        | inr runs ↦ elim (Option-cases (parse_uuid claims.sub)) [
          | inl unreadable ↦ ground arith
          | inr (id, subject) ↦
              let accepted : accept_session claims id store ≡ ok out = ground arith in
              let (current, shown) = accepted_cases claims id store out accepted in
              record {
                claims = claims;
                id = id;
                decoded = decoded;
                access = (same_iff claims.typ (codes "access")).0 access;
                unexpired = running claims now runs;
                session_runs = not_past claims now runs;
                subject = subject;
                current = current;
                shown = shown;
              }
        ]
      ]
    ]
  ]
