-- ===== src/Session/Examples.antt =====
-- Sessions of one user (server/src/user/auth/token.rs). In the place of JWTs stand their ids: `a1`
-- and `r1` are the tokens of a login, `a2` and `r2` those of its rotation.
use authere.Base.{
  ℕ, ◌≡◌, refl, true, false, Option, none, some, [], ◌∷◌, arith, if◌then◌else◌, unwrap_or,
}
use authere.Base.Text.{Text, codes, same}
use authere.Base.Rows.{find, update_where, delete_where, count_where}
use authere.Base.Errors.{authentication_required, ok, err, is_ok}
use authere.Role.{get_for_user, join_roles}
use authere.Session.{
  Claims, TokenPair, RefreshToken, Store, Crates, user_session_version, verify_legacy,
  verify_user_session, upsert_revocation, revoke_user_access_tokens, revoke_all_user_tokens,
  sweep_expired_sessions,
}
use authere.Session.Tokens.{
  Fresh, has_token_hash, access_claims, refresh_claims, sign, generate_access_token_for_session,
  insert_refresh_token, refresh_row, generate_refresh_token_for_session, token_pair,
  generate_token_pair_for_session, generate_token_pair, verify_access_token, accept_session,
  read_refresh_token, take_refresh_token, consume_refresh_token, deadline, rotate_token_pair,
}
use authere.Session.Browser.{
  open_retry, settle_error, follow, save_retry, rotate_and_save, retry_of,
  rotate_browser_token_pair,
}
use authere.Session.Verified.{verify_user_session-revoke}
use authere.Session.Access.{IsAccepted, verify_access_token-IsAccepted}
use authere.Session.Pair.{IsPairFor}
use authere.Session.Rotation.{IsRefresh, IsDeadline, rotate_token_pair-keeps}
use authere.Session.Steps.{Steps, issues, saves, sweeps, done, next}
use authere.Session.Replay.{consume_refresh_token_twice}

sessions : Unit {0}
unfolding user_session_version verify_legacy verify_user_session upsert_revocation
    revoke_user_access_tokens revoke_all_user_tokens sweep_expired_sessions access_claims
    refresh_claims sign generate_access_token_for_session insert_refresh_token refresh_row
    generate_refresh_token_for_session token_pair generate_token_pair_for_session
    generate_token_pair verify_access_token accept_session read_refresh_token take_refresh_token
    consume_refresh_token deadline rotate_token_pair open_retry settle_error follow save_retry
    rotate_and_save retry_of rotate_browser_token_pair find update_where delete_where count_where
    same get_for_user join_roles
sessions = tt

abbrev login_access : Claims
unfolding access_claims
login_access = access_claims (codes "a1") 1000 (codes "7") [] 5000 (some 0) 1000

abbrev login_refresh : Claims
unfolding refresh_claims
login_refresh = refresh_claims (codes "r1") 1000 (codes "7") 5000 (some 0) 1000

abbrev rotated_access : Claims
unfolding access_claims
rotated_access = access_claims (codes "a2") 2000 (codes "7") [] 5000 (some 0) 1000

abbrev rotated_refresh : Claims
unfolding refresh_claims
rotated_refresh = refresh_claims (codes "r2") 2000 (codes "7") 5000 (some 0) 1000

abbrev decode : ℕ → Text → Option Claims
decode now token =
    if same token (codes "a1")
    then some login_access
    else if same token (codes "r1")
    then some login_refresh
    else if same token (codes "a2")
    then some rotated_access
    else if same token (codes "r2")
    then some rotated_refresh
    else none

abbrev crates : Crates
crates = record {
  encode = λ claims. some claims.jti;
  decode = decode;
  hash_token = λ token. token;
  parse_uuid = λ text. if same text (codes "7") then some 7 else none;
  show_uuid = λ id. codes "7";
  seal = λ pair. some pair.refresh_token;
  unseal = λ text. some (record {
    access_token = codes "a2";
    refresh_token = text;
    expires_in = 900;
    refresh_expires_in = 3000;
    token_type = codes "Bearer";
  });
}

abbrev empty : Store
empty = record {
  accounts = record { id = 7; active = true; token_version = 0 } ∷ [];
  tables = record { users = 7 ∷ []; roles = []; user_roles = [] };
  refresh_tokens = [];
  revocations = [];
  handoffs = [];
}

abbrev first : Fresh
first = record { access_jti = codes "a1"; refresh_jti = codes "r1"; refresh_id = 1 }

abbrev second : Fresh
second = record { access_jti = codes "a2"; refresh_jti = codes "r2"; refresh_id = 2 }

abbrev store : Store
store = (generate_token_pair crates 4000 first 1000 7 [] empty).1

abbrev pair : TokenPair
pair = record {
  access_token = codes "a2";
  refresh_token = codes "r2";
  expires_in = 900;
  refresh_expires_in = 3000;
  token_type = codes "Bearer";
}

session_tests :
    ((rotate_token_pair crates second (codes "r1") 2000 store).0 ≡ ok pair)
    × (verify_access_token crates (codes "a1") 1500 store ≡ ok login_access)
    × (verify_access_token crates (codes "a1") 1900 store ≡ err authentication_required)
    × ((rotate_browser_token_pair crates second
          (codes "r1")
          2004
          (rotate_browser_token_pair crates second (codes "r1") 2000 store).1).0
        ≡ ok pair)
    × ((rotate_browser_token_pair crates second
          (codes "r1")
          2005
          (rotate_browser_token_pair crates second (codes "r1") 2000 store).1).0
        ≡ err authentication_required)
unfolding sessions
session_tests = (refl, refl, refl, refl, refl)

verify_user_session-revoke_example :
    verify_user_session 7 1000 (some 0) (revoke_all_user_tokens 7 1200 store)
    ≡ err authentication_required
unfolding sessions
verify_user_session-revoke_example = verify_user_session-revoke 7 1200 1000 (some 0) store refl

verify_access_token-IsAccepted_example : IsAccepted crates (codes "a1") 1500 store login_access
unfolding sessions
verify_access_token-IsAccepted_example =
    verify_access_token-IsAccepted crates (codes "a1") 1500 store login_access refl

rotate_token_pair-keeps_example :
    (id : ℕ) × (session : Claims) × (old : IsRefresh crates (codes "r1") 2000 id store session)
    × (ends : ℕ) × IsDeadline crates old.claims ends
    × IsPairFor crates 2000 id ends
        (unwrap_or old.claims.auth_time old.claims.iat)
        (some old.version)
        pair
unfolding sessions
rotate_token_pair-keeps_example =
    rotate_token_pair-keeps crates second (codes "r1") 2000 store pair refl

-- `r1` is consumed and rotated, the pair is kept for a retry, and `r1` is presented again.
abbrev used : Store
used = (consume_refresh_token crates (codes "r1") 2000 store).1

abbrev rotated : Store
rotated = (generate_token_pair_for_session crates second 2000 7 [] 5000 (some 0) 1000 used).1

abbrev saved : Store
saved = save_retry crates (codes "r1") 2000 (codes "r2") rotated

abbrev replayed : Store
replayed = (consume_refresh_token crates (codes "r1") 2100 saved).1

-- the token of the rotation is another one
rotated-apart :
    (token : Text)
    → sign crates (refresh_claims (codes "r2") 2000 (codes "7") 5000 (some 0) 1000) ≡ ok token
    → same token (codes "r1") ≡ false
unfolding sessions
rotated-apart token made = ground arith

abbrev between_steps : Steps crates (codes "r1") used saved
unfolding sessions
between_steps =
    next used rotated saved (issues second 2000 7 [] 5000 (some 0) 1000 used rotated-apart)
      (next rotated saved saved (saves (codes "r1") 2000 (codes "r2") rotated) (done saved))

abbrev last_steps : Steps crates (codes "r1") replayed (sweep_expired_sessions 2200 replayed)
last_steps =
    next replayed (sweep_expired_sessions 2200 replayed) (sweep_expired_sessions 2200 replayed)
      (sweeps 2200 replayed) (done (sweep_expired_sessions 2200 replayed))

consume_refresh_token_twice_example :
    (is_ok (consume_refresh_token crates (codes "r1") 2100 saved).0 ≡ false)
    × ((again : ℕ × Claims) (row : RefreshToken)
        → read_refresh_token crates (codes "r1") 2100 saved ≡ ok again
        → find (has_token_hash (codes "r1")) saved.refresh_tokens ≡ some row
        → (issued_at : ℕ) (version : Option ℕ)
        → verify_user_session row.user_id issued_at version saved ≡ ok tt
        → verify_user_session row.user_id issued_at version (sweep_expired_sessions 2200 replayed)
          ≡ err authentication_required)
unfolding sessions
consume_refresh_token_twice_example =
    consume_refresh_token_twice crates (codes "r1") 2000 2100 store saved
      (sweep_expired_sessions 2200 replayed) (7, login_refresh) refl (omega arith) between_steps
      last_steps
