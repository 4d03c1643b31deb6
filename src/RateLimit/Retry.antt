-- ===== src/RateLimit/Retry.antt =====
-- What the limiter of server/src/rate_limit.rs answers, and what its cleanup leaves.
use authere.Base.{
  ℕ, ◌+◌, ◌-◌, ◌≤◌, ◌<◌, ◌≡◌, ◌≢◌, refl, inl, inr, true, false, Option, none, some, ◌==◌, leb,
  arith, Bool-cases,
}
use authere.Base.Errors.{ok, err}
use authere.RateLimit.{
  Config, Entry, Entries, entry_or_new, reset_expired, admit, check, retain_fresh, cleanup,
}

module _ (config : Config) where
  admit_retry :
      (now later wait : ℕ) (entry : Entry)
      → 0 < config.max_requests
      → config.max_requests < 4294967296
      → entry.window_start ≤ now
      → (admit config now entry).0 ≡ err wait
      → now + wait ≤ later
      → (wait ≤ config.window)
        × ((admit config later (reset_expired config later (admit config now entry).1)).0
            ≡ ok (config.max_requests - 1))
  unfolding admit reset_expired
  admit_retry now later wait entry some_allowed small past refused waited =
      elim (Bool-cases (leb config.max_requests entry.count)) [
        | inl full ↦
            let told : config.window - (now - entry.window_start) ≡ wait = ground arith in
            let expired : leb config.window (later - entry.window_start) ≡ true = ground arith in
            (ground arith, ground arith)
        | inr free ↦ ground arith
      ]

  window_start-reset_expired :
      (now : ℕ) (entry : Entry)
      → entry.window_start ≤ now
      → (reset_expired config now entry).window_start ≤ now
  unfolding reset_expired
  window_start-reset_expired now entry h = ground arith

  -- Suppose the address's window began no later than now. Then a refused request is told to wait
  -- no longer than the window, and one that comes after that wait is let through, with the whole
  -- quota less one left.
  pub check_retry :
      (ip now later wait : ℕ) (entries : Entries)
      → 0 < config.max_requests
      → config.max_requests < 4294967296
      → (entry_or_new now (entries ip)).window_start ≤ now
      → (check config ip now entries).0 ≡ err wait
      → now + wait ≤ later
      → (wait ≤ config.window)
        × ((check config ip later (check config ip now entries).1).0 ≡ ok (config.max_requests - 1))
  unfolding check entry_or_new
  check_retry ip now later wait entries some_allowed small past refused waited =
      let same : (ip == ip) ≡ true = ground arith in
      rw same (
        admit_retry now later wait _ some_allowed small
          (window_start-reset_expired now (entry_or_new now (entries ip)) past) refused waited)

  same_entry :
      (cleaned now : ℕ) (entry : Option Entry)
      → cleaned ≤ now
      → reset_expired config now (entry_or_new now (retain_fresh config cleaned entry))
        ≡ reset_expired config now (entry_or_new now entry)
  unfolding reset_expired entry_or_new retain_fresh
  same_entry cleaned now none h = refl
  same_entry cleaned now (some entry) h = ground arith

  -- A cleanup is not seen: a later check has the outcome that it would have had without it, and
  -- leaves the same entry for the address.
  check-cleanup :
      (ip cleaned now : ℕ) (entries : Entries)
      → cleaned ≤ now
      → ((check config ip now (cleanup config cleaned entries)).0 ≡ (check config ip now entries).0)
        × ((check config ip now (cleanup config cleaned entries)).1 ip
            ≡ (check config ip now entries).1 ip)
  unfolding check cleanup
  check-cleanup ip cleaned now entries h =
      let same : (ip == ip) ≡ true = ground arith in
      let e = same_entry cleaned now (entries ip) h in rw (same, e) (refl, refl)

  -- A check of one address leaves what the limiter holds of every other as it is.
  check_other :
      (ip other now : ℕ) (entries : Entries)
      → other ≢ ip
      → (check config ip now entries).1 other ≡ entries other
  unfolding check
  check_other ip other now entries h =
      let apart : (other == ip) ≡ false = ground arith in rw apart refl
