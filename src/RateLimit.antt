-- ===== src/RateLimit.antt =====
-- server/src/rate_limit.rs: the fixed-window rate limiter. The map from addresses to entries is a
-- function; an address is a number, a `Duration` and an `Instant` count nanoseconds, and
-- `duration_since` stops at 0 as the standard library's does. Counters are 32 bits wide.
pub mod Window
pub mod Retry
mod Examples
use authere.Base.{
  ℕ, suc, ◌+◌, ◌-◌, ◌%◌, Bool, true, false, Option, none, some, List, [], ◌∷◌, ◌==◌, leb, ltb,
  if◌then◌else◌,
}
use authere.Base.Errors.{Result, ok, err}

-- `RateLimitConfig`
pub record Config : Type 0 where
  pub max_requests : ℕ
  pub window : ℕ

-- `RateLimitEntry`
pub record Entry : Type 0 where
  pub count : ℕ
  pub window_start : ℕ

abbrev pub Entries : Type 0
Entries = ℕ → Option Entry

-- `RateLimiter::new`
abbrev pub empty : Entries
empty ip = none

abbrev pub insert : ℕ → Entry → Entries → Entries
insert ip entry entries other = if other == ip then some entry else entries other

-- `or_insert`
unfoldable pub entry_or_new : ℕ → Option Entry → Entry
entry_or_new now none = record { count = 0; window_start = now }
entry_or_new now (some entry) = entry

module _ (config : Config) where
  -- the reset of a window that has expired
  unfoldable pub reset_expired : ℕ → Entry → Entry
  reset_expired now entry =
      if leb config.window (now - entry.window_start)
      then record { count = 0; window_start = now }
      else entry

  -- the outcome for an entry, and the entry that is left
  unfoldable pub admit : ℕ → Entry → Result ℕ ℕ × Entry
  admit now entry =
      let counted = (entry.count + 1) % 4294967296 in
      if leb config.max_requests entry.count
      then (err (config.window - (now - entry.window_start)), entry)
      else (ok (config.max_requests - counted), record entry { count = counted })

  -- `check`: how many requests remain, or how long to wait
  unfoldable pub check : ℕ → ℕ → Entries → Result ℕ ℕ × Entries
  check ip now entries =
      let (outcome, entry) = admit now (reset_expired now (entry_or_new now (entries ip))) in
      (outcome, insert ip entry entries)

  -- `record_failure`
  unfoldable pub record_failure : ℕ → ℕ → Entries → Entries
  record_failure ip now entries =
      let entry = reset_expired now (entry_or_new now (entries ip)) in
      insert ip (record entry { count = (entry.count + 1) % 4294967296 }) entries

  unfoldable pub retain_fresh : ℕ → Option Entry → Option Entry
  retain_fresh now none = none
  retain_fresh now (some entry) =
      if ltb (now - entry.window_start) config.window then some entry else none

  -- `cleanup`
  unfoldable pub cleanup : ℕ → Entries → Entries
  cleanup now entries ip = retain_fresh now (entries ip)
