-- ===== src/Session/Verified.antt =====
-- What `verify_user_session` and `verify_access_token` of server/src/user/auth/token.rs accept, and
-- what revocation does to it.
use authere.Base.{
  ℕ, ◌+◌, ◌<◌, ◌≡◌, ◌≢◌, ◌↔◌, ◌⊎◌, refl, ap, inl, inr, Option, none, some, List, [], ◌∷◌, is_some,
  arith, Bool-cases, Option-cases,
}
use authere.Base.Rows.{find, update_where}
use authere.Base.Errors.{AppError, authentication_required, Result, ok, err}
use authere.Session.{
  Account, Revocation, Store, of_account, is_active_account, of_user, user_session_version,
  verify_legacy, verify_user_session, upsert_revocation, revoke_user_access_tokens,
  revoke_all_user_tokens,
}

-- The account that a session of the user would need: active, and of the generation.
abbrev pub IsCurrent : ℕ → Option ℕ → ℕ → Store → Type 0
IsCurrent id session_version issued_at store =
    (account : Account) × (find (is_active_account id) store.accounts ≡ some account)
    × ((session_version ≡ some account.token_version)
        ⊎ (session_version ≡ none)
          × (account.token_version ≡ 0)
          × ((revocation : Revocation)
              → find (of_user id) store.revocations ≡ some revocation
              → revocation.revoked_before < issued_at))

legacy_iff :
    (id issued_at current : ℕ) (store : Store)
    → (verify_legacy id issued_at current store ≡ ok tt) ↔ (
        (current ≡ 0)
        × ((revocation : Revocation)
            → find (of_user id) store.revocations ≡ some revocation
            → revocation.revoked_before < issued_at))
unfolding verify_legacy
legacy_iff id issued_at current store = elim (Option-cases (find (of_user id) store.revocations)) [
  | inl nothing ↦ (λ h. (ground arith, λ r e. ground arith), λ (z, h). ground arith)
  | inr (r, found) ↦ (
    λ h. (ground arith, λ q e. let same_row : r ≡ q = ground arith in ground arith),
    λ (z, h). let older = h r found in ground arith,
  )
]

module _ (id issued_at : ℕ) (store : Store) where
  IsCurrent-none :
      (verify_user_session id issued_at none store ≡ ok tt) ↔ IsCurrent id none issued_at store
  unfolding verify_user_session user_session_version
  IsCurrent-none = elim (Option-cases (find (is_active_account id) store.accounts)) [
    | inl missing ↦ (λ h. ground arith, λ (account, found, k). ground arith)
    | inr (account, found) ↦
        let legacy = legacy_iff id issued_at account.token_version store in
        (
          λ h.
              let (first, older) = legacy.0 (ground arith) in
              (account, found, inr (refl, first, older)),
          λ (a, f, k). elim k [
            | inl e ↦ cc
            | inr (e, first, older) ↦
                let same_account : a ≡ account = ground arith in
                let accepted = legacy.1 (ground arith, older) in ground arith
          ],
        )
  ]

  IsCurrent-some :
      (version : ℕ)
      → (verify_user_session id issued_at (some version) store ≡ ok tt)
        ↔ IsCurrent id (some version) issued_at store
  unfolding verify_user_session user_session_version
  IsCurrent-some version = elim (Option-cases (find (is_active_account id) store.accounts)) [
    | inl missing ↦ (λ h. ground arith, λ (account, found, k). ground arith)
    | inr (account, found) ↦ (
      λ h. (account, found, inl (ap some (ground arith))),
      λ (a, f, k). elim k [ inl e ↦ ground arith | inr (e, first, older) ↦ cc ],
    )
  ]

-- A session is accepted exactly if its user is active, and it is of the user's present generation;
-- a session without a generation, only in the first one, if it was issued after the last
-- revocation.
pub verify_user_session_iff :
    (id issued_at : ℕ) (session_version : Option ℕ) (store : Store)
    → (verify_user_session id issued_at session_version store ≡ ok tt)
      ↔ IsCurrent id session_version issued_at store
verify_user_session_iff id issued_at none store = IsCurrent-none id issued_at store
verify_user_session_iff id issued_at (some version) store =
    IsCurrent-some id issued_at store version

pub find_active-update_where :
    (id : ℕ) (accounts : List Account)
    → find (is_active_account id) (
        update_where
          (of_account id)
          (λ a. record a { token_version = a.token_version + 1 })
          accounts)
      ≡ elim (find (is_active_account id) accounts) [
        | none ↦ none
        | some a ↦ some (record a { token_version = a.token_version + 1 })
      ]
unfolding find update_where
find_active-update_where id [] = refl
find_active-update_where id (a ∷ accounts) = ground (arith, find_active-update_where id accounts)

user_session_version-revoke :
    (id now : ℕ) (account : Account) (store : Store)
    → find (is_active_account id) store.accounts ≡ some account
    → user_session_version id (revoke_all_user_tokens id now store) ≡ ok (account.token_version + 1)
unfolding user_session_version revoke_all_user_tokens revoke_user_access_tokens
user_session_version-revoke id now account store found =
    rw (user_session_version, find_active-update_where id store.accounts, found) refl

-- After a revocation no session of the user that was accepted is accepted, whenever it was issued.
pub verify_user_session-revoke :
    (id now issued_at : ℕ) (session_version : Option ℕ) (store : Store)
    → verify_user_session id issued_at session_version store ≡ ok tt
    → verify_user_session id issued_at session_version (revoke_all_user_tokens id now store)
      ≡ err authentication_required
unfolding verify_user_session verify_legacy
verify_user_session-revoke id now issued_at session_version store h =
    let (account, found, k) = (verify_user_session_iff id issued_at session_version store).0 h in
    let next = user_session_version-revoke id now account store found in
    elim k [ inl e ↦ ground arith | inr (e, first, older) ↦ ground arith ]

module _ (id other now : ℕ) (apart : other ≢ id) where
  pub find_active-other :
      (accounts : List Account)
      → find (is_active_account other) (
          update_where
            (of_account id)
            (λ a. record a { token_version = a.token_version + 1 })
            accounts)
        ≡ find (is_active_account other) accounts
  unfolding find update_where
  find_active-other [] = refl
  find_active-other (a ∷ accounts) = ground (arith, find_active-other accounts, apart)

  find_revocation-updated :
      (rows : List Revocation)
      → find
          (of_user other)
          (update_where (of_user id) (λ r. record r { revoked_before = now }) rows)
        ≡ find (of_user other) rows
  unfolding find update_where
  find_revocation-updated [] = refl
  find_revocation-updated (r ∷ rows) = ground (arith, find_revocation-updated rows, apart)

  find_revocation-upsert :
      (rows : List Revocation)
      → find (of_user other) (upsert_revocation id now rows) ≡ find (of_user other) rows
  unfolding upsert_revocation find
  find_revocation-upsert rows = elim (Bool-cases (is_some (find (of_user id) rows))) [
    | inl there ↦ rw there (find_revocation-updated rows)
    | inr absent ↦ rw absent (ground (arith, apart))
  ]

  user_session_version-other :
      (store : Store)
      → user_session_version other (revoke_all_user_tokens id now store)
        ≡ user_session_version other store
  unfolding user_session_version revoke_all_user_tokens revoke_user_access_tokens
  user_session_version-other store =
      rw (user_session_version, find_active-other store.accounts) refl

  verify_legacy-other :
      (issued_at current : ℕ) (store : Store)
      → verify_legacy other issued_at current (revoke_all_user_tokens id now store)
        ≡ verify_legacy other issued_at current store
  unfolding verify_legacy revoke_all_user_tokens revoke_user_access_tokens
  verify_legacy-other issued_at current store =
      rw (verify_legacy, find_revocation-upsert store.revocations) refl

  verify_user_session-cases :
      (issued_at : ℕ) (session_version : Option ℕ) (store : Store) (r : Result ℕ AppError)
      → user_session_version other store ≡ r
      → verify_user_session other issued_at session_version (revoke_all_user_tokens id now store)
        ≡ verify_user_session other issued_at session_version store
  unfolding verify_user_session
  verify_user_session-cases issued_at session_version store (err e) h =
      rw (verify_user_session, user_session_version-other store, h) refl
  verify_user_session-cases issued_at none store (ok current) h =
      rw (verify_user_session, user_session_version-other store, h)
        (verify_legacy-other issued_at current store)
  verify_user_session-cases issued_at (some version) store (ok current) h =
      rw (verify_user_session, user_session_version-other store, h) refl

  -- A revocation leaves the sessions of every other user as they are.
  verify_user_session-revoke_other :
      (issued_at : ℕ) (session_version : Option ℕ) (store : Store)
      → verify_user_session other issued_at session_version (revoke_all_user_tokens id now store)
        ≡ verify_user_session other issued_at session_version store
  verify_user_session-revoke_other issued_at session_version store =
      verify_user_session-cases issued_at session_version store (user_session_version other store)
        refl
