-- ===== src/Oidc/Codes/Pkce.antt =====
-- From issue to exchange: the life of a code, and PKCE (server/src/oidc/codes.rs).
use authere.Base.{
  ℕ, ◌+◌, ◌≤◌, ◌<◌, ◌≡◌, ◌↔◌, refl, subst, Bool, true, some, List, [], ◌∷◌, arith, unwrap_or,
  length, all, All,
}
use authere.Base.Text.{Text, codes, same_iff, same_refl}
use authere.Base.Rows.{find}
use authere.Base.Errors.{ok}
use authere.Oidc.Codes.{
  Codes, Claim, Grant, has_hash, is_unreserved, new_row, consumed_code, expiry, issue,
  verify_pkce_s256, consume,
}
use authere.Oidc.Codes.Exchange.{IsKeyed, IsBound, consume_iff}
use authere.Oidc.Codes.Replay.{issue-IsKeyed}

all_iff : (p : ℕ → Bool) (xs : List ℕ) → (all p xs ≡ true) ↔ All (λ x. p x ≡ true) xs
all_iff p [] = (λ h. tt, λ h. refl)
all_iff p (x ∷ xs) = (
  λ h. (ground arith, (all_iff p xs).0 (ground arith)),
  λ h. let a = h.0 in let b = (all_iff p xs).1 h.1 in ground arith,
)

-- A verifier is accepted exactly if it has 43 to 128 bytes, all of them unreserved, and the
-- challenge is its S256 transform.
verify_pkce_s256_iff :
    (challenge_of : Text → Text) (verifier challenge : Text)
    → (verify_pkce_s256 challenge_of verifier challenge ≡ true) ↔ (
        (43 ≤ length verifier)
        × (length verifier ≤ 128)
        × All (λ b. is_unreserved b ≡ true) verifier
        × (challenge_of verifier ≡ challenge))
unfolding verify_pkce_s256
verify_pkce_s256_iff challenge_of verifier challenge = (
  λ h. (
    ground arith,
    ground arith,
    (all_iff is_unreserved verifier).0 (ground arith),
    (same_iff (challenge_of verifier) challenge).0 (ground arith),
  ),
  λ (long, short, bytes, e).
      let a = (all_iff is_unreserved verifier).1 bytes in
      let b = (same_iff (challenge_of verifier) challenge).1 e in ground arith,
)

issued :
    (hash_code : Text → Text) (code : Text) (now : ℕ) (grant : Grant) (rows : Codes)
    → (issue hash_code code now grant rows).0 ≡ ok code
    → find (has_hash (hash_code code)) (issue hash_code code now grant rows).1
      ≡ some (new_row (hash_code code) now grant)
unfolding issue find new_row
issued hash_code code now grant rows h = ground (arith, same_refl (hash_code code))

-- What a claim on a code that was issued `now` must fulfil.
abbrev pub IsTimely : (Text → Text) → ℕ → ℕ → Grant → Claim → Type 0
IsTimely challenge_of now later grant claim =
    (later < now + 600)
    × (later < unwrap_or grant.session_exp 9223372036854775807)
    × (grant.application_id ≡ claim.application_id)
    × (grant.redirect_uri ≡ claim.redirect_uri)
    × (verify_pkce_s256 challenge_of claim.code_verifier grant.code_challenge ≡ true)

module _ (challenge_of : Text → Text) (hash : Text) (now later : ℕ) (grant : Grant)
    (claim : Claim) where
  IsBound-complete :
      grant.code_challenge_method ≡ codes "S256"
      → IsTimely challenge_of now later grant claim
      → IsBound challenge_of later claim (new_row hash now grant)
  unfolding new_row expiry
  IsBound-complete s256 (soon, running, app, uri, verified) = record {
    unconsumed = refl;
    unexpired = omega arith;
    application = app;
    redirect = uri;
    method = s256;
    verifier = verified;
  }

  IsBound-sound :
      IsBound challenge_of later claim (new_row hash now grant)
      → IsTimely challenge_of now later grant claim
  unfolding new_row expiry
  IsBound-sound b =
      let t = b.unexpired in (omega arith, omega arith, b.application, b.redirect, b.verifier)

-- With unique code hashes, a code that has just been issued with the method S256 is exchanged for
-- what it was issued with exactly if fewer than 600 seconds have passed, the session still runs,
-- and the client, the redirect URI and the verifier are those that it was issued for.
pub consume-issue :
    (hash_code challenge_of : Text → Text) (code : Text) (now later : ℕ) (grant : Grant)
    (claim : Claim) (rows : Codes)
    → IsKeyed rows
    → (issue hash_code code now grant rows).0 ≡ ok code
    → grant.code_challenge_method ≡ codes "S256"
    → IsTimely challenge_of now later grant claim ↔ (
        (consume hash_code challenge_of code later claim (issue hash_code code now grant rows).1).0
        ≡ some (consumed_code (new_row (hash_code code) now grant)))
consume-issue hash_code challenge_of code now later grant claim rows keyed success s256 =
    let after = (issue hash_code code now grant rows).1 in
    let keyed_after = issue-IsKeyed hash_code challenge_of code now grant rows keyed in
    let row = new_row (hash_code code) now grant in
    let found = issued hash_code code now grant rows success in
    let exchanged =
      consume_iff hash_code challenge_of code later claim after (consumed_code row) keyed_after in
    (
      λ h. exchanged.1 (
        row,
        found,
        IsBound-complete challenge_of (hash_code code) now later grant claim s256 h,
        refl,
      ),
      λ h.
          let (r, same_row, b, e) = exchanged.0 h in
          let same : r ≡ row = ground arith in
          IsBound-sound challenge_of (hash_code code) now later grant claim
            (subst (IsBound challenge_of later claim) same b),
    )
