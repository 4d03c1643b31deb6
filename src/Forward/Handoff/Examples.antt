-- ===== src/Forward/Handoff/Examples.antt =====
-- One login carried to another origin (server/src/user/auth/forward.rs). In the place of signed
-- tokens stand their ids.
use authere.Base.{◌≡◌, refl, true, false, none, some, [], ◌∷◌, arith, if◌then◌else◌, ltb}
use authere.Base.Text.{Text, codes, same}
use authere.Base.Rows.{find, delete_where, count_where}
use authere.Base.Errors.{ok, is_ok}
use authere.Session.{
  Claims, Store, verify_user_session, user_session_version, verify_legacy, sweep_expired_sessions,
}
use authere.Forward.Handoff.{
  ForwardSession, Handoff, Crates, valid_state, insert_handoff, session_for, handoff_for,
  store_handoff, issue_handoff, is_misused, decode_handoff, take_handoff, redeem_handoff,
  verify_session,
}
use authere.Forward.Handoff.Steps.{Steps, issues, sweeps, done, next}
use authere.Forward.Handoff.Redeemed.{redeem_handoff_once}
use authere.Forward.Handoff.Issued.{redeem_handoff-issue}

handoffs : Unit {0}
unfolding valid_state insert_handoff session_for handoff_for store_handoff issue_handoff is_misused
    decode_handoff take_handoff redeem_handoff verify_session find delete_where count_where same
    verify_user_session user_session_version verify_legacy
handoffs = tt

abbrev state : Text
state = codes "0123456789abcdef0123456789abcdef0123456789abcdef0123456789abcdef"

abbrev origin : Text
origin = codes "https://app.example.org"

abbrev parent : Claims
parent = record {
  sub = codes "7";
  iss = [];
  aud = [];
  roles = [];
  exp = 1900;
  iat = 1000;
  jti = [];
  typ = codes "access";
  session_exp = some 5000;
  session_version = some 0;
  auth_time = some 1000;
}

abbrev session : ForwardSession
session = record {
  sub = 7;
  application_id = 3;
  iss = codes "authere-forward";
  aud = origin;
  iat = 1000;
  exp = 5000;
  session_version = some 0;
  typ = codes "forward-session";
}

abbrev handoff : Handoff
handoff = record {
  session = session;
  state_hash = state;
  redirect_path = codes "/start";
  jti = codes "j1";
  iss = codes "authere-forward";
  aud = origin;
  exp = 1060;
  typ = codes "forward-handoff";
}

abbrev crates : Crates
crates = record {
  sign_handoff = λ h. some h.jti;
  sign_session = λ s. some (codes "session");
  read_handoff = λ audience token. if same token (codes "j1") then some handoff else none;
  read_session = λ audience token. some session;
  in_time = λ now exp. ltb now exp;
  state_hash = λ s. s;
  parse_uuid = λ text. if same text (codes "7") then some 7 else none;
}

abbrev empty : Store
empty = record {
  accounts = record { id = 7; active = true; token_version = 0 } ∷ [];
  tables = record { users = 7 ∷ []; roles = []; user_roles = [] };
  refresh_tokens = [];
  revocations = [];
  handoffs = [];
}

abbrev store : Store
store = (issue_handoff crates (codes "j1") 1000 parent 3 origin (codes "/start") state empty).1

abbrev out : Text × ForwardSession × Text
out = (codes "session", session, codes "/start")

redeem_tests :
    ((redeem_handoff crates (codes "j1") origin state 1059 store).0 ≡ ok out)
    × (is_ok (redeem_handoff crates (codes "j1") origin state 1060 store).0 ≡ false)
    × (is_ok (redeem_handoff crates (codes "j1") origin (codes "f") 1059 store).0 ≡ false)
unfolding handoffs
redeem_tests = (refl, refl, refl)

-- After the redemption the user goes to the protected origin again, with another handoff, and
-- expired rows are swept.
abbrev redeemed : Store
redeemed = (redeem_handoff crates (codes "j1") origin state 1010 store).1

abbrev reissued : Store
reissued =
    (issue_handoff crates (codes "j2") 1011 parent 3 origin (codes "/start") state redeemed).1

abbrev later_steps : Steps crates (codes "j1") redeemed (sweep_expired_sessions 1012 reissued)
unfolding handoffs
later_steps =
    next redeemed reissued (sweep_expired_sessions 1012 reissued)
      (issues (codes "j2") 1011 parent 3 origin (codes "/start") state redeemed refl)
      (next reissued (sweep_expired_sessions 1012 reissued) (sweep_expired_sessions 1012 reissued)
        (sweeps 1012 reissued) (done (sweep_expired_sessions 1012 reissued)))

redeem_handoff_once_example :
    is_ok
      (redeem_handoff crates
        (codes "j1")
        origin
        state
        1013
        (sweep_expired_sessions 1012 reissued)).0
    ≡ false
unfolding handoffs
redeem_handoff_once_example =
    redeem_handoff_once crates (codes "j1") origin state state 1010 1013 store
      (sweep_expired_sessions 1012 reissued) out handoff refl refl (omega arith) later_steps

redeem_handoff-issue_example :
    (redeem_handoff crates (codes "j1") origin state 1010 store).0 ≡ ok out
unfolding handoffs
redeem_handoff-issue_example =
    redeem_handoff-issue crates (codes "j1") 1000 1010 7 parent 3 origin (codes "/start") state
      (codes "j1") (codes "session") empty (λ e. refl) (λ time exp h. ground arith) refl refl refl
      (omega arith) (omega arith)
