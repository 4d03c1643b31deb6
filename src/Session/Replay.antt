-- ===== src/Session/Replay.antt =====
-- A refresh token works once; presenting it again ends the user's sessions (`consume_refresh_token`
-- of server/src/user/auth/token.rs).
use authere.Base.{
  ℕ, ◌≤◌, ◌≡◌, refl, subst, ◌∙◌, inl, inr, true, false, Option, some, ◌==◌, arith, Bool-cases,
  Option-cases,
}
use authere.Base.Text.{Text}
use authere.Base.Rows.{find, update_where, count_where, count-update_where_zero, find-update_where}
use authere.Base.Errors.{authentication_required, ok, err, is_ok, Result-cases}
use authere.Session.{
  Claims, RefreshToken, Store, Crates, verify_user_session, revoke_all_user_tokens,
}
use authere.Session.Tokens.{
  has_token_hash, is_usable, read_refresh_token, take_refresh_token, consume_refresh_token,
}
use authere.Session.Later.{IsLater, IsLater-same, verify_user_session-revoked}
use authere.Session.Dead.{IsDead}
use authere.Session.Steps.{Steps, Steps-IsDead, Steps-IsLater}

-- The store after the update of `consume_refresh_token`.
abbrev marked : Text → ℕ → Store → Store
marked hash now store = record store {
  refresh_tokens =
      update_where (is_usable hash now) (λ row. record row { revoked_at = some now })
        store.refresh_tokens;
}

marked_unusable :
    (hash : Text) (now later : ℕ) (store : Store)
    → now ≤ later
    → count_where (is_usable hash later) (marked hash now store).refresh_tokens ≡ 0
marked_unusable hash now later store h =
    count-update_where_zero (is_usable hash now) (is_usable hash later)
      (λ row. record row { revoked_at = some now }) store.refresh_tokens (λ r e. ground arith)
      (λ r e. ground arith)

module _ (crates : Crates) where
  open crates use {hash_token}

  taken_once :
      (hash : Text) (now : ℕ) (store : Store)
      → (take_refresh_token crates hash now store).0 ≡ true
      → (count_where (is_usable hash now) store.refresh_tokens ≡ 1)
        × ((take_refresh_token crates hash now store).1 ≡ marked hash now store)
  unfolding take_refresh_token
  taken_once hash now store h =
      elim (Bool-cases (count_where (is_usable hash now) store.refresh_tokens == 1)) [
        | inl one ↦ (ground arith, rw one refl)
        | inr other ↦
            elim (Option-cases
              (find (has_token_hash hash) (marked hash now store).refresh_tokens)) [
                | inl nothing ↦ ground arith
                | inr (row, found) ↦ ground arith
              ]
      ]

  retaken :
      (hash : Text) (later : ℕ) (store : Store) (row : RefreshToken)
      → count_where (is_usable hash later) store.refresh_tokens ≡ 0
      → find (has_token_hash hash) (marked hash later store).refresh_tokens ≡ some row
      → take_refresh_token crates hash later store
        ≡ (false, revoke_all_user_tokens row.user_id later (marked hash later store))
  unfolding take_refresh_token
  retaken hash later store row zero_left found = ground arith

  consumed :
      (token : Text) (now : ℕ) (store : Store) (session : ℕ × Claims)
      → (consume_refresh_token crates token now store).0 ≡ ok session
      → (count_where (is_usable (hash_token token) now) store.refresh_tokens ≡ 1)
        × ((consume_refresh_token crates token now store).1 ≡ marked (hash_token token) now store)
  unfolding consume_refresh_token
  consumed token now store session h =
      elim (Result-cases (read_refresh_token crates token now store)) [
        | inl (s, read) ↦
            let got : (take_refresh_token crates (hash_token token) now store).0 ≡ true =
              ground arith in
            let (one, after) = taken_once (hash_token token) now store got in
            (one, rw (consume_refresh_token, read) after)
        | inr (e, failed) ↦ ground arith
      ]

  refused_again :
      (token : Text) (later : ℕ) (store : Store) (row : RefreshToken)
      → count_where (is_usable (hash_token token) later) store.refresh_tokens ≡ 0
      → find
          (has_token_hash (hash_token token))
          (marked (hash_token token) later store).refresh_tokens
        ≡ some row
      → (is_ok (consume_refresh_token crates token later store).0 ≡ false)
        × ((again : ℕ × Claims)
            → read_refresh_token crates token later store ≡ ok again
            → (consume_refresh_token crates token later store).1
              ≡ revoke_all_user_tokens row.user_id later (marked (hash_token token) later store))
  unfolding consume_refresh_token
  refused_again token later store row zero_left found =
      let e = retaken (hash_token token) later store row zero_left found in
      elim (Result-cases (read_refresh_token crates token later store)) [
        | inl (s, read) ↦ (ground arith, λ again h. rw (consume_refresh_token, read, e) refl)
        | inr (p, failed) ↦ (ground arith, λ again h. cc)
      ]

  marked_kept :
      (hash : Text) (later : ℕ) (store : Store) (row : RefreshToken)
      → count_where (is_usable hash later) store.refresh_tokens ≡ 0
      → find (has_token_hash hash) store.refresh_tokens ≡ some row
      → (other : RefreshToken) × (find
            (has_token_hash hash)
            (marked hash later store).refresh_tokens
          ≡ some other)
        × (other.user_id ≡ row.user_id)
  marked_kept hash later store row unused found =
      let kept =
        find-update_where (has_token_hash hash) (is_usable hash later)
          (λ r. record r { revoked_at = some later }) store.refresh_tokens (λ r. refl) in
      elim (Bool-cases (is_usable hash later row)) [
        | inl usable ↦
            (record row { revoked_at = some later }, kept ∙ rw (found, usable) refl, refl)
        | inr used ↦ (row, kept ∙ rw (found, used) refl, refl)
      ]

  unknown-retaken :
      (hash : Text) (later : ℕ) (store : Store)
      → count_where (is_usable hash later) store.refresh_tokens ≡ 0
      → (take_refresh_token crates hash later store).0 ≡ false
  unfolding take_refresh_token
  unknown-retaken hash later store unused =
      elim (Option-cases (find (has_token_hash hash) (marked hash later store).refresh_tokens)) [
        | inl nothing ↦ ground arith
        | inr (row, found) ↦ ground arith
      ]

  refused_dead :
      (token : Text) (later : ℕ) (store : Store)
      → count_where (is_usable (hash_token token) later) store.refresh_tokens ≡ 0
      → is_ok (consume_refresh_token crates token later store).0 ≡ false
  unfolding consume_refresh_token
  refused_dead token later store unused =
      let lost = unknown-retaken (hash_token token) later store unused in
      elim (Result-cases (read_refresh_token crates token later store)) [
        | inl (s, read) ↦ ground arith
        | inr (p, failed) ↦ ground arith
      ]

  -- A refresh token is consumed at most once: however other tokens are consumed, issued and revoked,
  -- retries kept and expired rows swept in between, the token is refused from then on, if the clock
  -- does not run back and no other token of its hash is issued. If it is presented again while its
  -- session still stands and its row has not been swept, then every session of the row's owner that
  -- was accepted is refused in every state that such steps lead to.
  pub consume_refresh_token_twice :
      (token : Text) (now later : ℕ) (store between after : Store) (session : ℕ × Claims)
      → (consume_refresh_token crates token now store).0 ≡ ok session
      → now ≤ later
      → Steps crates (hash_token token) (consume_refresh_token crates token now store).1 between
      → Steps crates (hash_token token) (consume_refresh_token crates token later between).1 after
      → (is_ok (consume_refresh_token crates token later between).0 ≡ false)
        × ((again : ℕ × Claims) (row : RefreshToken)
            → read_refresh_token crates token later between ≡ ok again
            → find (has_token_hash (hash_token token)) between.refresh_tokens ≡ some row
            → (issued_at : ℕ) (version : Option ℕ)
            → verify_user_session row.user_id issued_at version between ≡ ok tt
            → verify_user_session row.user_id issued_at version after ≡ err authentication_required)
  consume_refresh_token_twice token now later store between after session h order steps more =
      let (one, first) = consumed token now store session h in
      let dead : IsDead (hash_token token) later (consume_refresh_token crates token now store).1 =
        rw first (marked_unusable (hash_token token) now later store order) in
      let unused = Steps-IsDead crates later steps dead in
      (
        refused_dead token later between unused,
        λ again row read found issued_at version accepted.
            let (other, there, owner) =
              marked_kept (hash_token token) later between row unused found in
            let (_, revoked) = refused_again token later between other unused there in
            let reached : IsLater
                (revoke_all_user_tokens row.user_id later (marked (hash_token token) later between))
                after =
              rw⁻¹ owner
                (subst (λ s. IsLater s after) (revoked again read) (Steps-IsLater crates more)) in
            verify_user_session-revoked row.user_id later issued_at version between
              (marked (hash_token token) later between) after
              (IsLater-same between (marked (hash_token token) later between) refl) reached
              accepted,
      )
