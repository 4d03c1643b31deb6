-- ===== src/Oidc/Codes/Examples.antt =====
-- The life of one authorization code (server/src/oidc/codes.rs). The hash and the challenge are
-- stand-ins: the text itself, with a byte in front.
use authere.Base.{◌≡◌, ◌≤◌, ◌↔◌, refl, none, some, List, [], ◌∷◌, arith}
use authere.Base.Text.{Text, codes, same}
use authere.Base.Rows.{find, update_where, delete_where, count_where}
use authere.Oidc.Codes.{
  Code, Codes, ConsumedCode, Claim, Grant, has_hash, expiry, new_row, consumed_code, issue,
  verify_pkce_s256, is_refused, consume_read, consume_update, consume, sweep_expired,
}
use authere.Oidc.Codes.Exchange.{IsKeyed, IsBound, consume_iff}
use authere.Oidc.Codes.Replay.{
  Event, reads, updates, issues, sweeps, State, finish, read_pending, put, step, exchanges,
  is_unused, exchanges_once, step-IsKeyed,
}
use authere.Oidc.Codes.Pkce.{IsTimely, consume-issue}

code_table : Unit {0}
unfolding issue consume consume_read consume_update verify_pkce_s256 is_refused sweep_expired
    new_row consumed_code expiry find update_where delete_where count_where same step finish
    read_pending put exchanges
code_table = tt

abbrev hash_code : Text → Text
hash_code code = b'h' ∷ code

abbrev challenge_of : Text → Text
challenge_of verifier = b'c' ∷ verifier

abbrev verifier : Text
verifier = codes "dBjftJeZ4CVP-mB92K27uhbUJU1p1r_wW1gFWFOEjXk"

abbrev home : Text
home = codes "https://app/callback"

abbrev grant : Grant
grant = record {
  application_id = 1;
  user_id = 7;
  redirect_uri = home;
  scope = codes "openid";
  nonce = none;
  code_challenge = challenge_of verifier;
  code_challenge_method = codes "S256";
  auth_time = 900;
  session_version = some 0;
  session_exp = some 1300;
}

abbrev claim : Claim
claim = record { application_id = 1; redirect_uri = home; code_verifier = verifier }

-- The same claim by another client.
abbrev stolen : Claim
stolen = record { application_id = 2; redirect_uri = home; code_verifier = verifier }

abbrev code : Text
code = codes "code"

abbrev rows : Codes
rows = (issue hash_code code 1000 grant []).1

abbrev given : ConsumedCode
given = consumed_code (new_row (hash_code code) 1000 grant)

consume_tests :
    ((consume hash_code challenge_of code 1100 claim rows).0 ≡ some given)
    × ((consume hash_code challenge_of code 1100 stolen rows).0 ≡ none)
    × ((consume hash_code challenge_of code 1300 claim rows).0 ≡ none)
unfolding code_table
consume_tests = (refl, refl, refl)

empty-IsKeyed : IsKeyed []
unfolding count_where
empty-IsKeyed hash = omega arith

rows-IsKeyed : IsKeyed rows
unfolding issue step
rows-IsKeyed =
    step-IsKeyed hash_code challenge_of [] (issues code 1000 grant)
      (record { rows = []; pending = λ c. none }) empty-IsKeyed

consume_iff_example : ((consume hash_code challenge_of code 1100 claim rows).0 ≡ some given) ↔ (
    (row : Code) × (find (has_hash (hash_code code)) rows ≡ some row)
    × IsBound challenge_of 1100 claim row
    × (given ≡ consumed_code row))
consume_iff_example = consume_iff hash_code challenge_of code 1100 claim rows given rows-IsKeyed

abbrev start : State
start = record { rows = rows; pending = λ client. none }

-- Two clients read the code before either takes it.
abbrev race : List Event
race = reads 1 code 1100 claim ∷ reads 2 code 1100 claim ∷ updates 2 ∷ sweeps 1200 ∷ updates 1 ∷ []

race_test : exchanges hash_code challenge_of (hash_code code) race start ≡ 1
unfolding code_table
race_test = refl

exchanges_once_example :
    (exchanges hash_code challenge_of (hash_code code) race start ≤ 1)
    × (count_where (is_unused (hash_code code)) rows ≡ 0
        → exchanges hash_code challenge_of (hash_code code) race start ≡ 0)
exchanges_once_example =
    exchanges_once hash_code challenge_of (hash_code code) race start rows-IsKeyed
      (tt, (tt, (tt, (tt, (tt, tt)))))

consume-issue_example : IsTimely challenge_of 1000 1100 grant claim ↔ (
    (consume hash_code challenge_of code 1100 claim (issue hash_code code 1000 grant []).1).0
    ≡ some given)
unfolding code_table
consume-issue_example =
    consume-issue hash_code challenge_of code 1000 1100 grant claim [] empty-IsKeyed refl refl
