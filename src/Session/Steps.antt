-- ===== src/Session/Steps.antt =====
-- What may happen to sessions between two requests (server/src/user/auth/token.rs): a refresh token
-- that is used up stays so.
use authere.Base.{ℕ, ◌≡◌, refl, false, Option, none, List, leb, arith}
use authere.Base.Text.{Text, same}
use authere.Base.Rows.{update_where, count-delete_where_le}
use authere.Base.Errors.{ok}
use authere.Session.{
  RefreshToken, Store, Crates, retry_is_over, revoke_user_access_tokens, revoke_all_user_tokens,
  sweep_expired_sessions,
}
use authere.Session.Tokens.{
  Fresh, has_token_hash, is_usable, refresh_claims, sign, consume_refresh_token, refresh_row,
  generate_token_pair_for_session,
}
use authere.Session.Browser.{save_retry}
use authere.Session.Dead.{
  IsDead, retried-IsDead, revoke_all-IsDead, consume-IsDead, insert-IsDead, insert-accounts,
  generated,
}
use authere.Session.Later.{
  IsLater, IsLater-refl, IsLater-trans, IsLater-same, IsLater-revoke, IsLater-revoke_access,
  consume_refresh_token-IsLater,
}

module _ (crates : Crates) where
  -- A statement or a request that acts on sessions, when a token of this hash is not made again.
  pub data Step (hash : Text) : Store → Store → Type 0 where
    consumes :
        (token : Text) (now : ℕ) (store : Store)
        → Step hash store (consume_refresh_token crates token now store).1
    issues :
        (fresh : Fresh) (now id : ℕ) (roles : List Text) (expires_at : ℕ) (version : Option ℕ)
        (auth_time : ℕ) (store : Store)
        → ((token : Text)
            → sign crates (
                refresh_claims fresh.refresh_jti now
                  (crates.show_uuid id)
                  expires_at
                  version
                  auth_time)
              ≡ ok token
            → same (crates.hash_token token) hash ≡ false)
        → Step hash store
            (generate_token_pair_for_session crates fresh now id roles expires_at version auth_time
              store).1
    saves :
        (other : Text) (now : ℕ) (sealed : Text) (store : Store)
        → Step hash store (save_retry crates other now sealed store)
    revokes : (id now : ℕ) (store : Store) → Step hash store (revoke_all_user_tokens id now store)
    revokes_access :
        (id now : ℕ) (store : Store) → Step hash store (revoke_user_access_tokens id now store)
    sweeps : (now : ℕ) (store : Store) → Step hash store (sweep_expired_sessions now store)
    elsewhere :
        (store after : Store)
        → after.accounts ≡ store.accounts
        → after.refresh_tokens ≡ store.refresh_tokens
        → Step hash store after

  pub data Steps (hash : Text) : Store → Store → Type 0 where
    done : (store : Store) → Steps hash store store
    next :
        (store between after : Store)
        → Step hash store between
        → Steps hash between after
        → Steps hash store after

  Step-IsDead :
      {hash : Text} {store after : Store} (later : ℕ)
      → Step hash store after
      → IsDead hash later store
      → IsDead hash later after
  unfolding save_retry sweep_expired_sessions revoke_user_access_tokens refresh_row
  Step-IsDead {hash} later (consumes token now store) dead =
      consume-IsDead crates hash later token now store dead
  Step-IsDead {hash} later (issues fresh now id roles expires_at version auth_time store apart)
        dead =
      generated crates (IsDead hash later) fresh now id roles expires_at version auth_time store
        dead
        (λ token made.
          insert-IsDead crates hash later
            (refresh_row crates fresh.refresh_id now id expires_at token) store (apart token made)
            dead)
  Step-IsDead {hash} later (saves other now sealed store) dead =
      retried-IsDead hash later (retry_is_over now) _ _ (λ row. refl)
        (retried-IsDead hash later (has_token_hash other) _ store.refresh_tokens (λ row. refl) dead)
  Step-IsDead {hash} later (revokes id now store) dead =
      revoke_all-IsDead crates hash later id now store dead
  Step-IsDead {hash} later (revokes_access id now store) dead = dead
  Step-IsDead {hash} later (sweeps now store) dead =
      let kept =
        retried-IsDead hash later (retry_is_over now)
          (λ row. record row { browser_retry_pair = none }) store.refresh_tokens (λ row. refl)
          dead in
      let left =
        count-delete_where_le (λ (row : RefreshToken). leb row.expires_at now)
          (is_usable hash later)
          (update_where (retry_is_over now) (λ row. record row { browser_retry_pair = none })
            store.refresh_tokens) in
      omega (arith, left, kept)
  Step-IsDead later (elsewhere store after accounts kept) dead = rw kept dead

  Step-IsLater : {hash : Text} {store after : Store} → Step hash store after → IsLater store after
  unfolding save_retry sweep_expired_sessions
  Step-IsLater (consumes token now store) = consume_refresh_token-IsLater crates token now store
  Step-IsLater (issues fresh now id roles expires_at version auth_time store apart) =
      generated crates (IsLater store) fresh now id roles expires_at version auth_time store
        (IsLater-refl store)
        (λ token made. IsLater-same store _ (
          insert-accounts crates (refresh_row crates fresh.refresh_id now id expires_at token)
            store))
  Step-IsLater (saves other now sealed store) = IsLater-same store _ refl
  Step-IsLater (revokes id now store) = IsLater-revoke id now store
  Step-IsLater (revokes_access id now store) = IsLater-revoke_access id now store
  Step-IsLater (sweeps now store) = IsLater-same store _ refl
  Step-IsLater (elsewhere store after kept tokens) = IsLater-same store after kept

  -- A token that is used up stays so.
  pub Steps-IsDead :
      {hash : Text} {store after : Store} (later : ℕ)
      → Steps hash store after
      → IsDead hash later store
      → IsDead hash later after
  Steps-IsDead later (done store) dead = dead
  Steps-IsDead later (next store between after step steps) dead =
      Steps-IsDead later steps (Step-IsDead later step dead)

  -- Generations only grow.
  pub Steps-IsLater :
      {hash : Text} {store after : Store} → Steps hash store after → IsLater store after
  Steps-IsLater (done store) = IsLater-refl store
  Steps-IsLater (next store between after step steps) =
      IsLater-trans store between after (Step-IsLater step) (Steps-IsLater steps)
