-- ===== src/Oidc/Codes/Replay.antt =====
-- Exchanges of authorization codes that interleave (server/src/oidc/codes.rs). Each of the two
-- statements of `consume` is atomic; between them other requests may run.
use authere.Base.{
  ℕ, ◌+◌, ◌≤◌, ◌≡◌, refl, subst, inl, inr, Bool, false, not, ◌&&◌, Option, none, some, List, [],
  ◌∷◌, ◌==◌, if◌then◌else◌, is_some, arith, All, Bool-cases, Option-cases,
}
use authere.Base.Text.{Text, same, same_iff}
use authere.Base.Rows.{
  find, count_where, count-update_where_eq, count-update_where_le, count-delete_where_le,
  count_where_le, count_where-of_find, count-update_where_out,
}
use authere.Oidc.Codes.{
  Code, Codes, Claim, Grant, has_hash, is_live, new_row, issue, consume_read, consume_update,
  sweep_expired,
}
use authere.Oidc.Codes.Exchange.{IsKeyed}

-- A request that has read its row: the hash, the time it took, and the row.
pub record Pending : Type 0 where
  pub hash : Text
  pub now : ℕ
  pub row : Code

-- The table, and what each client has read.
pub record State : Type 0 where
  pub rows : Codes
  pub pending : ℕ → Option Pending

pub data Event : Type 0 where
  -- a client starts an exchange of a code; goes on with it
  reads : ℕ → Text → ℕ → Claim → Event
  updates : ℕ → Event
  issues : Text → ℕ → Grant → Event
  sweeps : ℕ → Event

-- Rows of a hash that were not consumed.
abbrev pub is_unused : Text → Code → Bool
is_unused hash row = same row.code_hash hash && not (is_some row.consumed_at)

module _ (hash_code challenge_of : Text → Text) where
  unfoldable pub put : ℕ → Option Pending → (ℕ → Option Pending) → ℕ → Option Pending
  put client p pending other = if other == client then p else pending other

  -- a client's update, and whether it exchanges a code of the hash
  unfoldable pub finish : Text → Option Pending → Codes → ℕ × Codes
  finish hash none rows = (0, rows)
  finish hash (some p) rows =
      let (out, after) = consume_update p.hash p.now p.row rows in
      (if same p.hash hash && is_some out then 1 else 0, after)

  unfoldable pub read_pending : Text → ℕ → Option Code → Option Pending
  read_pending hash now none = none
  read_pending hash now (some row) = some (record { hash = hash; now = now; row = row })

  -- How many exchanges of a hash an event completes, and the state after it.
  unfoldable pub step : Text → Event → State → ℕ × State
  step hash (reads client code now claim) state =
      let row = consume_read challenge_of (hash_code code) now claim state.rows in
      (
        0,
        record state { pending = put client (read_pending (hash_code code) now row) state.pending },
      )
  step hash (updates client) state =
      let (n, after) = finish hash (state.pending client) state.rows in
      (n, record { rows = after; pending = put client none state.pending })
  step hash (issues plaintext now grant) state =
      (0, record state { rows = (issue hash_code plaintext now grant state.rows).1 })
  step hash (sweeps now) state = (0, record state { rows = (sweep_expired now state.rows).1 })

  unfoldable pub exchanges : Text → List Event → State → ℕ
  exchanges hash [] state = 0
  exchanges hash (event ∷ events) state =
      let (n, after) = step hash event state in n + exchanges hash events after

  -- No code of the hash is issued by the event.
  abbrev IsNotIssue : Text → Event → Type 0
  IsNotIssue hash (issues plaintext now grant) = same (hash_code plaintext) hash ≡ false
  IsNotIssue hash (reads client code now claim) = Unit
  IsNotIssue hash (updates client) = Unit
  IsNotIssue hash (sweeps now) = Unit

  finish_unused :
      (hash : Text) (p : Option Pending) (rows : Codes)
      → (finish hash p rows).0 + count_where (is_unused hash) (finish hash p rows).1
        ≤ count_where (is_unused hash) rows
  unfolding finish consume_update
  finish_unused hash none rows = omega arith
  finish_unused hash (some p) rows = elim (Bool-cases (same p.hash hash)) [
    | inl this ↦
        let e = (same_iff p.hash hash).0 this in
        let out =
          count-update_where_out (is_live p.hash p.now) (is_unused hash)
            (λ r. record r { consumed_at = some p.now }) rows
            (λ r live. (ground arith, ground arith)) in
        ground arith
    | inr other ↦ ground (
      arith,
      count-update_where_le (is_live p.hash p.now) (is_unused hash)
          (λ r. record r { consumed_at = some p.now }) rows (λ r h. ground arith),
    )
  ]

  issue_unused :
      (hash plaintext : Text) (now : ℕ) (grant : Grant) (rows : Codes)
      → same (hash_code plaintext) hash ≡ false
      → count_where (is_unused hash) (issue hash_code plaintext now grant rows).1
        ≤ count_where (is_unused hash) rows
  unfolding issue new_row count_where
  issue_unused hash plaintext now grant rows other = ground arith

  step_unused :
      (hash : Text) (event : Event) (state : State)
      → IsNotIssue hash event
      → (step hash event state).0 + count_where (is_unused hash) (step hash event state).1.rows
        ≤ count_where (is_unused hash) state.rows
  unfolding step sweep_expired
  step_unused hash (reads client code now claim) state h = omega arith
  step_unused hash (updates client) state h = finish_unused hash (state.pending client) state.rows
  step_unused hash (issues plaintext now grant) state h =
      omega (arith, issue_unused hash plaintext now grant state.rows h)
  step_unused hash (sweeps now) state h =
      omega (arith, count-delete_where_le _ (is_unused hash) state.rows)

  exchanges_unused :
      (hash : Text) (events : List Event) (state : State)
      → All (IsNotIssue hash) events
      → exchanges hash events state ≤ count_where (is_unused hash) state.rows
  unfolding exchanges
  exchanges_unused hash [] state h = omega arith
  exchanges_unused hash (event ∷ events) state h = omega (
    arith,
    step_unused hash event state h.0,
    exchanges_unused hash events (step hash event state).1 h.1,
  )

  -- However the reads and the updates of any number of clients, the issuing of other codes and the
  -- sweeps interleave, a code is exchanged at most once if code hashes are unique at the start, and
  -- not at all if it has been consumed then.
  pub exchanges_once :
      (hash : Text) (events : List Event) (state : State)
      → IsKeyed state.rows
      → All (IsNotIssue hash) events
      → (exchanges hash events state ≤ 1)
        × (count_where (is_unused hash) state.rows ≡ 0 → exchanges hash events state ≡ 0)
  exchanges_once hash events state keyed h = (
    omega (
      arith,
      exchanges_unused hash events state h,
      keyed hash,
      count_where_le (has_hash hash) (is_unused hash) state.rows (λ r e. ground arith),
    ),
    λ none_left. omega (arith, exchanges_unused hash events state h, none_left),
  )

  keyed-cons :
      (row : Code) (rows : Codes) (hash : Text)
      → find (has_hash row.code_hash) rows ≡ none
      → count_where (has_hash hash) rows ≤ 1
      → count_where (has_hash hash) (row ∷ rows) ≤ 1
  unfolding count_where
  keyed-cons row rows hash free keyed = elim (Bool-cases (same row.code_hash hash)) [
    | inl this ↦
        let e = (same_iff row.code_hash hash).0 this in
        let zero_there = count_where-of_find (has_hash row.code_hash) rows free in
        let moved = subst (λ h. count_where (has_hash h) rows ≡ 0) e zero_there in ground arith
    | inr other ↦ rw other keyed
  ]

  pub issue-IsKeyed :
      (plaintext : Text) (now : ℕ) (grant : Grant) (rows : Codes)
      → IsKeyed rows
      → IsKeyed (issue hash_code plaintext now grant rows).1
  unfolding new_row issue
  issue-IsKeyed plaintext now grant rows keyed hash =
      elim (Option-cases (find (has_hash (hash_code plaintext)) rows)) [
        | inl free ↦
            rw free
              (keyed-cons (new_row (hash_code plaintext) now grant) rows hash free (keyed hash))
        | inr (row, taken) ↦ rw taken (keyed hash)
      ]

  finish-IsKeyed :
      (hash : Text) (p : Option Pending) (rows : Codes)
      → IsKeyed rows
      → IsKeyed (finish hash p rows).1
  unfolding finish consume_update
  finish-IsKeyed hash none rows keyed other = keyed other
  finish-IsKeyed hash (some p) rows keyed other = ground (
    arith,
    keyed other,
    count-update_where_eq (is_live p.hash p.now) (has_hash other)
        (λ r. record r { consumed_at = some p.now }) rows (λ r. refl),
  )

  -- Code hashes stay unique: no read, update, issue or sweep makes two rows with one hash.
  pub step-IsKeyed :
      (hash : Text) (event : Event) (state : State)
      → IsKeyed state.rows
      → IsKeyed (step hash event state).1.rows
  unfolding step sweep_expired
  step-IsKeyed hash (reads client code now claim) state keyed = keyed
  step-IsKeyed hash (updates client) state keyed =
      finish-IsKeyed hash (state.pending client) state.rows keyed
  step-IsKeyed hash (issues plaintext now grant) state keyed =
      issue-IsKeyed plaintext now grant state.rows keyed
  step-IsKeyed hash (sweeps now) state keyed =
      λ other. omega (arith, count-delete_where_le _ (has_hash other) state.rows, keyed other)
