-- ===== src/Session/Dead.antt =====
-- A refresh token that is used up is not revived by what acts on the tokens
-- (server/src/user/auth/token.rs).
use authere.Base.{
  Bool, ℕ, ◌≡◌, ◌==◌, refl, inl, inr, false, Option, some, List, is_some, leb, arith, Bool-cases,
  Option-cases,
}
use authere.Base.Text.{Text, same}
use authere.Base.Rows.{
  find, update_where, count_where, count-update_where_le, count-update_where_eq,
}
use authere.Base.Errors.{ok, Result-cases}
use authere.Session.{
  RefreshToken, Store, Crates, is_open, revoke_user_access_tokens, revoke_all_user_tokens,
}
use authere.Session.Tokens.{
  Fresh, has_token_hash, is_usable, refresh_claims, sign, read_refresh_token, take_refresh_token,
  consume_refresh_token, insert_refresh_token, refresh_row, generate_refresh_token_for_session,
  generate_access_token_for_session, generate_token_pair_for_session,
}

-- No row of the token can be consumed at a time.
abbrev pub IsDead : Text → ℕ → Store → Type 0
IsDead hash later store = count_where (is_usable hash later) store.refresh_tokens ≡ 0

-- Marking rows as revoked, whichever they are, revives none.
revoked-IsDead :
    (hash : Text) (later now : ℕ) (chosen : RefreshToken → Bool) (rows : List RefreshToken)
    → count_where (is_usable hash later) rows ≡ 0
    → count_where
        (is_usable hash later)
        (update_where chosen (λ row. record row { revoked_at = some now }) rows)
      ≡ 0
revoked-IsDead hash later now chosen rows dead =
    let le =
      count-update_where_le chosen (is_usable hash later)
        (λ row. record row { revoked_at = some now }) rows (λ r h. ground arith) in
    omega (arith, le, dead)

-- What is kept for a browser's retry revives none.
pub retried-IsDead :
    (hash : Text) (later : ℕ) (chosen : RefreshToken → Bool) (change : RefreshToken → RefreshToken)
    (rows : List RefreshToken)
    → ((row : RefreshToken) → is_usable hash later (change row) ≡ is_usable hash later row)
    → count_where (is_usable hash later) rows ≡ 0
    → count_where (is_usable hash later) (update_where chosen change rows) ≡ 0
retried-IsDead hash later chosen change rows kept dead =
    rw (count-update_where_eq chosen (is_usable hash later) change rows kept) dead

module _ (crates : Crates) where
  pub revoke_all-IsDead :
      (hash : Text) (later id now : ℕ) (store : Store)
      → IsDead hash later store
      → IsDead hash later (revoke_all_user_tokens id now store)
  unfolding revoke_all_user_tokens revoke_user_access_tokens
  revoke_all-IsDead hash later id now store dead =
      revoked-IsDead hash later now (is_open id) store.refresh_tokens dead

  pub consume-IsDead :
      (hash : Text) (later : ℕ) (token : Text) (now : ℕ) (store : Store)
      → IsDead hash later store
      → IsDead hash later (consume_refresh_token crates token now store).1
  unfolding consume_refresh_token take_refresh_token
  consume-IsDead hash later token now store dead =
      let mine = crates.hash_token token in
      let after : Store = record store {
        refresh_tokens =
            update_where (is_usable mine now) (λ row. record row { revoked_at = some now })
              store.refresh_tokens;
      } in
      let still = revoked-IsDead hash later now (is_usable mine now) store.refresh_tokens dead in
      elim (Result-cases (read_refresh_token crates token now store)) [
        | inr (e, bad) ↦ rw (consume_refresh_token, bad) dead
        | inl (session, read) ↦
            elim (Bool-cases (count_where (is_usable mine now) store.refresh_tokens == 1)) [
              | inl one ↦ rw (consume_refresh_token, take_refresh_token, read, one) still
              | inr other ↦ elim (Option-cases (find (has_token_hash mine) after.refresh_tokens)) [
                | inl nothing ↦
                    rw (consume_refresh_token, take_refresh_token, read, other, nothing) still
                | inr (row, found) ↦
                    rw (consume_refresh_token, take_refresh_token, read, other, found)
                      (revoke_all-IsDead hash later row.user_id now after still)
              ]
            ]
      ]

  pub insert-IsDead :
      (hash : Text) (later : ℕ) (row : RefreshToken) (store : Store)
      → same row.token_hash hash ≡ false
      → IsDead hash later store
      → IsDead hash later (insert_refresh_token crates row store).1
  unfolding insert_refresh_token count_where
  insert-IsDead hash later row store apart dead =
      elim (Bool-cases
        (is_some (find (λ (r : RefreshToken). r.id == row.id) store.refresh_tokens))) [
          | inl taken ↦ rw (insert_refresh_token, taken) dead
          | inr free ↦ rw (insert_refresh_token, free, apart) dead
        ]

  pub insert-accounts :
      (row : RefreshToken) (store : Store)
      → (insert_refresh_token crates row store).1.accounts ≡ store.accounts
  unfolding insert_refresh_token
  insert-accounts row store =
      elim (Bool-cases
        (is_some (find (λ (r : RefreshToken). r.id == row.id) store.refresh_tokens))) [
          | inl taken ↦ rw (insert_refresh_token, taken) refl
          | inr free ↦ rw (insert_refresh_token, free) refl
        ]

  -- What holds of a store, and of it with the row of a new token, holds after the token is made.
  refreshed {ℓ} :
      (P : Store → Type ℓ) (fresh : Fresh) (now id : ℕ) (expires_at : ℕ) (version : Option ℕ)
      (auth_time : ℕ) (store : Store)
      → P store
      → ((token : Text)
          → sign crates (
              refresh_claims fresh.refresh_jti now
                (crates.show_uuid id)
                expires_at
                version
                auth_time)
            ≡ ok token
          → P
              (insert_refresh_token crates
                (refresh_row crates fresh.refresh_id now id expires_at token)
                store).1)
      → P
          (generate_refresh_token_for_session crates fresh now id expires_at version auth_time
            store).1
  unfolding generate_refresh_token_for_session
  refreshed P fresh now id expires_at version auth_time store same_store with_row =
      elim (Result-cases (
        sign crates (
          refresh_claims fresh.refresh_jti now (crates.show_uuid id) expires_at version
            auth_time))) [
              | inr (e, bad) ↦ rw (generate_refresh_token_for_session, bad) same_store
              | inl (token, made) ↦
                  elim (Result-cases
                    (insert_refresh_token crates
                      (refresh_row crates fresh.refresh_id now id expires_at token) store).0) [
                        | inr (e, bad) ↦
                            rw (generate_refresh_token_for_session, made, bad) (with_row token made)
                        | inl (u, stored) ↦
                            rw (generate_refresh_token_for_session, made, stored)
                              (with_row token made)
                      ]
            ]

  -- The same after a pair is made.
  pub generated {ℓ} :
      (P : Store → Type ℓ) (fresh : Fresh) (now id : ℕ) (roles : List Text) (expires_at : ℕ)
      (version : Option ℕ) (auth_time : ℕ) (store : Store)
      → P store
      → ((token : Text)
          → sign crates (
              refresh_claims fresh.refresh_jti now
                (crates.show_uuid id)
                expires_at
                version
                auth_time)
            ≡ ok token
          → P
              (insert_refresh_token crates
                (refresh_row crates fresh.refresh_id now id expires_at token)
                store).1)
      → P
          (generate_token_pair_for_session crates fresh now id roles expires_at version auth_time
            store).1
  unfolding generate_token_pair_for_session
  generated P fresh now id roles expires_at version auth_time store same_store with_row =
      let after = refreshed P fresh now id expires_at version auth_time store same_store with_row in
      elim (Bool-cases (leb expires_at now)) [
        | inl over ↦ rw (generate_token_pair_for_session, over) same_store
        | inr runs ↦
            elim (Result-cases (
              generate_access_token_for_session crates fresh.access_jti now id roles expires_at
                version auth_time)) [
                  | inr (e, bad) ↦ rw (generate_token_pair_for_session, runs, bad) same_store
                  | inl (access, signed) ↦
                      elim (Result-cases
                        (generate_refresh_token_for_session crates fresh now id expires_at version
                          auth_time store).0) [
                            | inr (e, bad) ↦
                                rw (generate_token_pair_for_session, runs, signed, bad) after
                            | inl (token, made) ↦
                                rw (generate_token_pair_for_session, runs, signed, made) after
                          ]
                ]
      ]
