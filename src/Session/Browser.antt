-- ===== src/Session/Browser.antt =====
-- server/src/user/auth/token.rs: `rotate_browser_token_pair`, which answers a browser's concurrent
-- refreshes alike for five seconds. It runs in one transaction; an error other than a failed
-- authentication rolls it back.
use authere.Base.{
  ℕ, zero, suc, ◌+◌, Bool, not, ◌&&◌, Option, none, some, ltb, if◌then◌else◌, is_some,
}
use authere.Base.Text.{Text, same}
use authere.Base.Rows.{find, update_where}
use authere.Base.Errors.{AppError, authentication_required, internal_error, Result, ok, err, ◌>>=◌}
use authere.Session.{TokenPair, RefreshToken, Store, Crates, retry_is_over}
use authere.Session.Tokens.{Fresh, has_token_hash, verify_access_token, rotate_token_pair}

-- `token_hash = ? AND revoked_at IS NOT NULL AND expires_at > ?`
abbrev is_consumed : Text → ℕ → RefreshToken → Bool
is_consumed hash now row =
    same row.token_hash hash && is_some row.revoked_at && ltb now row.expires_at

-- `token_hash = ? AND expires_at > ?`
abbrev is_unexpired : Text → ℕ → RefreshToken → Bool
is_unexpired hash now row = same row.token_hash hash && ltb now row.expires_at

-- The sealed pair of a row whose retry window is open.
unfoldable pub open_retry : ℕ → RefreshToken → Option Text
open_retry now row = elim row.browser_retry_until [
  | none ↦ none
  | some until ↦ if ltb now until then row.browser_retry_pair else none
]

-- `Err(AuthenticationRequired)` keeps what has been written, any other error does not.
unfoldable pub settle_error : AppError → Store → Store → Store
settle_error authentication_required before after = after
settle_error _ before after = before

module _ (crates : Crates) where
  open crates use {hash_token, seal, unseal}

  -- the loop over replacements, for `rounds` rounds
  unfoldable pub follow : ℕ → TokenPair → ℕ → Store → Result TokenPair AppError
  follow zero pair now store = err authentication_required
  follow (suc rounds) pair now store =
      verify_access_token crates pair.access_token now store >>= (λ _.
        elim (find (is_unexpired (hash_token pair.refresh_token) now) store.refresh_tokens) [
          | none ↦ err authentication_required
          | some row ↦ if not (is_some row.revoked_at) then ok pair else elim (open_retry now row) [
            | none ↦ err authentication_required
            | some sealed ↦ elim (unseal sealed) [
              | none ↦ err authentication_required
              | some next ↦ follow rounds next now store
            ]
          ]
        ])

  -- what is kept for a retry, and the retries that are over
  unfoldable pub save_retry : Text → ℕ → Text → Store → Store
  save_retry hash now sealed store = record store {
    refresh_tokens =
        update_where (retry_is_over now) (λ row. record row { browser_retry_pair = none })
          (update_where (has_token_hash hash)
            (λ row. record row {
              browser_retry_until = some (now + 5);
              browser_retry_pair = some sealed;
            })
            store.refresh_tokens);
  }

  -- the rotation that follows when there is no retry
  unfoldable pub rotate_and_save : Fresh → Text → ℕ → Store → Result TokenPair AppError × Store
  rotate_and_save fresh token now store =
      let (rotated, after) = rotate_token_pair crates fresh token now store in
      elim rotated [
        | err e ↦ (err e, settle_error e store after)
        | ok pair ↦ elim (seal pair) [
          | none ↦ (err (internal_error "Failed to encrypt refresh retry"), store)
          | some sealed ↦ (ok pair, save_retry (hash_token token) now sealed after)
        ]
      ]

  unfoldable pub retry_of : Text → ℕ → Store → Option Text
  retry_of token now store = elim (find (is_consumed (hash_token token) now) store.refresh_tokens) [
    | none ↦ none
    | some row ↦ open_retry now row
  ]

  -- `rotate_browser_token_pair`
  unfoldable pub rotate_browser_token_pair :
      Fresh → Text → ℕ → Store → Result TokenPair AppError × Store
  rotate_browser_token_pair fresh token now store = elim (retry_of token now store) [
    | none ↦ rotate_and_save fresh token now store
    | some sealed ↦ elim (unseal sealed) [
      | none ↦ (err authentication_required, store)
      | some pair ↦ (follow 16 pair now store, store)
    ]
  ]
