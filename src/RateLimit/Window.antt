-- ===== src/RateLimit/Window.antt =====
-- How many requests of one address the limiter of server/src/rate_limit.rs lets through while
-- time passes.
use authere.Base.{
  ℕ, ◌+◌, ◌-◌, ◌*◌, ◌≤◌, ◌<◌, ◌%◌, ◌≡◌, inl, inr, true, false, ◌&&◌, subst, Option, none, some,
  List, [], ◌∷◌, ◌==◌, leb, if◌then◌else◌, arith, All, Bool-cases,
}
use authere.Base.Errors.{is_ok}
use authere.RateLimit.{
  Config, Entry, Entries, entry_or_new, reset_expired, admit, check, retain_fresh, cleanup,
}

-- What the server asks of a limiter: a check of an address, or the periodic cleanup, at a time.
pub data Event : Type 0 where
  checked : ℕ → ℕ → Event
  cleaned : ℕ → Event

abbrev pub time : Event → ℕ
time (checked ip now) = now
time (cleaned now) = now

module _ (config : Config) where
  -- The entries after an event, and whether it let a request of `who` through.
  unfoldable pub step : ℕ → Event → Entries → ℕ × Entries
  step who (checked ip now) entries =
      let (outcome, after) = check config ip now entries in
      (if ip == who && is_ok outcome then 1 else 0, after)
  step who (cleaned now) entries = (0, cleanup config now entries)

  -- How many requests of `who` a sequence of events lets through.
  unfoldable pub allowed : ℕ → List Event → Entries → ℕ
  allowed who [] entries = 0
  allowed who (event ∷ events) entries =
      let (n, after) = step who event entries in n + allowed who events after

  -- How many more requests an entry can let through between `start` and the end of a window that
  -- opens then.
  unfoldable allowance : ℕ → Option Entry → ℕ
  allowance start none = config.max_requests
  allowance start (some entry) =
      if leb start entry.window_start
      then config.max_requests - entry.count
      else config.max_requests - entry.count + config.max_requests

  abbrev pub During : ℕ → Event → Type 0
  During start event = (start ≤ time event) × (time event < start + config.window)

  admit-allowance :
      (start now : ℕ) (entry : Entry)
      → config.max_requests < 4294967296
      → (if is_ok (admit config now entry).0 then 1 else 0)
          + allowance start (some (admit config now entry).1)
        ≤ allowance start (some entry)
  unfolding admit allowance
  admit-allowance start now entry small = elim (Bool-cases (leb config.max_requests entry.count)) [
    | inl full ↦ ground arith
    | inr free ↦
        let wrap : (entry.count + 1) % 4294967296 ≡ entry.count + 1 = ground arith in ground arith
  ]

  reset_expired-allowance :
      (start now : ℕ) (entry : Option Entry)
      → start ≤ now
      → now < start + config.window
      → allowance start (some (reset_expired config now (entry_or_new now entry)))
        ≤ allowance start entry
  unfolding reset_expired entry_or_new allowance
  reset_expired-allowance start now none after before = ground arith
  reset_expired-allowance start now (some entry) after before = ground arith

  retain_fresh-allowance :
      (start now : ℕ) (entry : Option Entry)
      → start ≤ now
      → now < start + config.window
      → allowance start (retain_fresh config now entry) ≤ allowance start entry
  unfolding retain_fresh allowance
  retain_fresh-allowance start now none after before = ground arith
  retain_fresh-allowance start now (some entry) after before = ground arith

  checked-allowance :
      (who start now : ℕ) (entries : Entries)
      → config.max_requests < 4294967296
      → start ≤ now
      → now < start + config.window
      → (step who (checked who now) entries).0
          + allowance start ((step who (checked who now) entries).1 who)
        ≤ allowance start (entries who)
  unfolding step check
  checked-allowance who start now entries small after before =
      let same : (who == who) ≡ true = ground arith in
      rw same (
        omega (
          arith,
          admit-allowance start now (reset_expired config now (entry_or_new now (entries who)))
              small,
          reset_expired-allowance start now (entries who) after before,
        ))

  step-allowance :
      (who start : ℕ) (event : Event) (entries : Entries)
      → config.max_requests < 4294967296
      → During start event
      → (step who event entries).0 + allowance start ((step who event entries).1 who)
        ≤ allowance start (entries who)
  unfolding step check cleanup
  step-allowance who start (cleaned now) entries small (after, before) =
      omega (arith, retain_fresh-allowance start now (entries who) after before)
  step-allowance who start (checked ip now) entries small (after, before) =
      elim (Bool-cases (ip == who)) [
        | inl same ↦
            let same_ip : who ≡ ip = ground arith in
            subst
              (λ w.
                (step who (checked w now) entries).0
                  + allowance start ((step who (checked w now) entries).1 who)
                ≤ allowance start (entries who))
              same_ip (checked-allowance who start now entries small after before)
        | inr other ↦
            let other' : (who == ip) ≡ false = ground arith in rw (other, other') (omega arith)
      ]

  allowed-allowance :
      (who start : ℕ) (events : List Event) (entries : Entries)
      → config.max_requests < 4294967296
      → All (During start) events
      → allowed who events entries ≤ allowance start (entries who)
  unfolding allowed
  allowed-allowance who start [] entries small h = omega arith
  allowed-allowance who start (event ∷ events) entries small h = omega (
    arith,
    step-allowance who start event entries small h.0,
    allowed-allowance who start events (step who event entries).1 small h.1,
  )

  -- In any stretch of time as long as the window at most twice `max_requests` requests of an
  -- address are let through, whatever the limiter holds at its start, and however the checks of all
  -- addresses and the cleanups in it are ordered.
  pub allowed_le :
      (who start : ℕ) (events : List Event) (entries : Entries)
      → config.max_requests < 4294967296
      → All (During start) events
      → allowed who events entries ≤ 2 * config.max_requests
  unfolding allowance
  allowed_le who start events entries small h =
      omega (arith, allowed-allowance who start events entries small h, most (entries who))
    where
      most : (entry : Option Entry) → allowance start entry ≤ 2 * config.max_requests
      most none = omega arith
      most (some entry) = ground arith

  -- From an address that the limiter holds no entry for, at most `max_requests` requests are let
  -- through in a stretch of time as long as the window.
  allowed-of_new_le :
      (who start : ℕ) (events : List Event) (entries : Entries)
      → config.max_requests < 4294967296
      → All (During start) events
      → entries who ≡ none
      → allowed who events entries ≤ config.max_requests
  unfolding allowance
  allowed-of_new_le who start events entries small h new =
      ground (arith, allowed-allowance who start events entries small h, new)
