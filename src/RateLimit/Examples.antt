-- ===== src/RateLimit/Examples.antt =====
-- Runs of the limiter of server/src/rate_limit.rs: two requests in a window of ten.
use authere.Base.{◌≡◌, ◌≤◌, ◌*◌, refl, List, [], ◌∷◌, arith, All}
use authere.Base.Errors.{ok, err}
use authere.RateLimit.{
  Config, Entries, empty, insert, check, admit, reset_expired, entry_or_new, cleanup, retain_fresh,
  record_failure,
}
use authere.RateLimit.Window.{Event, checked, cleaned, allowed, step, During, allowed_le}
use authere.RateLimit.Retry.{check_retry}

limiter : Unit {0}
unfolding check admit reset_expired entry_or_new cleanup retain_fresh record_failure allowed step
limiter = tt

abbrev config : Config
config = record { max_requests = 2; window = 10 }

abbrev events : List Event
events = checked 1 5 ∷ checked 2 5 ∷ checked 1 6 ∷ cleaned 7 ∷ checked 1 8 ∷ checked 1 9 ∷ []

allowed_tests :
    (allowed config 1 events empty ≡ 2)
    × (allowed config 1
          (checked 1 0 ∷ checked 1 9 ∷ checked 1 10 ∷ checked 1 11 ∷ checked 1 12 ∷ [])
          empty
        ≡ 4)
    × ((check config 1 4 (record_failure config 1 3 (record_failure config 1 3 empty))).0 ≡ err 9)
unfolding limiter
allowed_tests = (refl, refl, refl)

abbrev full : Entries
full = insert 1 (record { count = 2; window_start = 3 }) empty

in_window : All (During config 5) events
in_window = (
  (omega arith, omega arith),
  (
    (omega arith, omega arith),
    (
      (omega arith, omega arith),
      ((omega arith, omega arith), ((omega arith, omega arith), ((omega arith, omega arith), tt))),
    ),
  ),
)

allowed_le_example : allowed config 1 events full ≤ 2 * 2
allowed_le_example = allowed_le config 1 5 events full (omega arith) in_window

check_retry_example : (9 ≤ 10) × ((check config 1 13 (check config 1 4 full).1).0 ≡ ok 1)
unfolding limiter
check_retry_example =
    check_retry config 1 4 13 9 full (omega arith) (omega arith) (omega arith) refl (omega arith)
