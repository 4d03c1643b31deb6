-- ===== src/Session/Later.antt =====
-- The generations of sessions only grow (server/src/user/auth/token.rs), so a session that a
-- revocation has ended stays so.
use authere.Base.{
  ℕ, ◌≤◌, ◌<◌, ◌≡◌, ◌==◌, ◌≢◌, refl, ◌∙◌, sym, ap, inl, inr, Option, some, arith, Bool-cases,
  Option-cases,
}
use authere.Base.Text.{Text}
use authere.Base.Rows.{find, update_where, count_where}
use authere.Base.Errors.{authentication_required, ok, err, Result-cases}
use authere.Session.{
  Store, Crates, is_active_account, is_open, user_session_version, verify_legacy,
  verify_user_session, revoke_user_access_tokens, revoke_all_user_tokens,
}
use authere.Session.Tokens.{
  has_token_hash, is_usable, read_refresh_token, take_refresh_token, consume_refresh_token,
}
use authere.Session.Verified.{verify_user_session_iff, find_active-update_where, find_active-other}

-- The users who are active in a later store were so in the earlier one, with no later generation.
abbrev pub IsLater : Store → Store → Type 0
IsLater store after =
    (id next : ℕ)
    → user_session_version id after ≡ ok next
    → (version : ℕ) × (user_session_version id store ≡ ok version) × (version ≤ next)

pub IsLater-refl : (store : Store) → IsLater store store
IsLater-refl store id next h = (next, h, omega arith)

pub IsLater-trans : (a b c : Store) → IsLater a b → IsLater b c → IsLater a c
IsLater-trans a b c ab bc id next h =
    let (middle, there, le) = bc id next h in
    let (first, here, le2) = ab id middle there in (first, here, omega (arith, le, le2))

pub IsLater-same : (store after : Store) → after.accounts ≡ store.accounts → IsLater store after
unfolding user_session_version
IsLater-same store after e id next h = (next, rw⁻¹ e h, omega arith)

-- A revocation raises the generation of its user.
revoke-raises :
    (id now next : ℕ) (store : Store)
    → user_session_version id (revoke_user_access_tokens id now store) ≡ ok next
    → (version : ℕ) × (user_session_version id store ≡ ok version) × (version < next)
unfolding user_session_version revoke_user_access_tokens
revoke-raises id now next store h =
    let e = find_active-update_where id store.accounts in
    elim (Option-cases (find (is_active_account id) store.accounts)) [
      | inl missing ↦ ground arith
      | inr (account, found) ↦
          (account.token_version, rw (user_session_version, found) refl, ground arith)
    ]

revoke-keeps :
    (id other now : ℕ) (store : Store)
    → other ≢ id
    → user_session_version other (revoke_user_access_tokens id now store)
      ≡ user_session_version other store
unfolding user_session_version revoke_user_access_tokens
revoke-keeps id other now store apart =
    rw (user_session_version, find_active-other id other now apart store.accounts) refl

pub IsLater-revoke_access :
    (id now : ℕ) (store : Store) → IsLater store (revoke_user_access_tokens id now store)
IsLater-revoke_access id now store other next h = elim (Bool-cases (other == id)) [
  | inl own ↦
      let e : other ≡ id = ground arith in
      let (version, there, lt) =
        revoke-raises id now next store
          (ap (λ x. user_session_version x (revoke_user_access_tokens id now store)) (sym e) ∙ h) in
      (version, ap (λ x. user_session_version x store) e ∙ there, omega (arith, lt))
  | inr apart ↦ (next, sym (revoke-keeps id other now store (λ e. ground arith)) ∙ h, omega arith)
]

pub IsLater-revoke :
    (id now : ℕ) (store : Store) → IsLater store (revoke_all_user_tokens id now store)
unfolding revoke_all_user_tokens
IsLater-revoke id now store =
    let between : Store = record store {
      refresh_tokens =
          update_where (is_open id) (λ row. record row { revoked_at = some now })
            store.refresh_tokens;
    } in
    IsLater-trans store between (revoke_user_access_tokens id now between)
      (IsLater-same store between refl) (IsLater-revoke_access id now between)

-- A session that was accepted is refused at any time after a revocation.
pub verify_user_session-revoked :
    (id now issued_at : ℕ) (session_version : Option ℕ) (store between after : Store)
    → IsLater store between
    → IsLater (revoke_all_user_tokens id now between) after
    → verify_user_session id issued_at session_version store ≡ ok tt
    → verify_user_session id issued_at session_version after ≡ err authentication_required
unfolding revoke_all_user_tokens verify_user_session user_session_version verify_legacy
verify_user_session-revoked id now issued_at session_version store between after before later h =
    let (account, found, k) = (verify_user_session_iff id issued_at session_version store).0 h in
    elim (Option-cases (find (is_active_account id) after.accounts)) [
      | inl missing ↦ rw (verify_user_session, user_session_version, missing) refl
      | inr (last, there) ↦
          let (w, revoked, le) =
            later id last.token_version (rw (user_session_version, there) refl) in
          let (u, middle, lt) =
            revoke-raises id now w
              (record between {
                refresh_tokens =
                    update_where (is_open id) (λ row. record row { revoked_at = some now })
                      between.refresh_tokens;
              })
              revoked in
          let (v, first, le2) = before id u middle in
          let same_version : account.token_version ≡ v = ground arith in
          let grown : account.token_version < last.token_version =
            omega (arith, le, lt, le2, same_version) in
          elim k [
            | inl e ↦ rw (verify_user_session, user_session_version, there, e) (ground arith)
            | inr (e, first_one, older) ↦
                rw (verify_user_session, user_session_version, there, e) (ground arith)
          ]
    ]

module _ (crates : Crates) where
  take_refresh_token-IsLater :
      (hash : Text) (now : ℕ) (store : Store)
      → IsLater store (take_refresh_token crates hash now store).1
  unfolding take_refresh_token
  take_refresh_token-IsLater hash now store =
      let after : Store = record store {
        refresh_tokens =
            update_where (is_usable hash now) (λ row. record row { revoked_at = some now })
              store.refresh_tokens;
      } in
      elim (Bool-cases (count_where (is_usable hash now) store.refresh_tokens == 1)) [
        | inl one ↦ rw (take_refresh_token, one) (IsLater-same store after refl)
        | inr other ↦ elim (Option-cases (find (has_token_hash hash) after.refresh_tokens)) [
          | inl nothing ↦ rw (take_refresh_token, other, nothing) (IsLater-same store after refl)
          | inr (row, found) ↦
              rw (take_refresh_token, other, found)
                (IsLater-trans store after (revoke_all_user_tokens row.user_id now after)
                  (IsLater-same store after refl) (IsLater-revoke row.user_id now after))
        ]
      ]

  pub consume_refresh_token-IsLater :
      (token : Text) (now : ℕ) (store : Store)
      → IsLater store (consume_refresh_token crates token now store).1
  unfolding consume_refresh_token
  consume_refresh_token-IsLater token now store =
      elim (Result-cases (read_refresh_token crates token now store)) [
        | inr (e, bad) ↦ rw (consume_refresh_token, bad) (IsLater-refl store)
        | inl (session, read) ↦
            rw (consume_refresh_token, read)
              (take_refresh_token-IsLater (crates.hash_token token) now store)
      ]
