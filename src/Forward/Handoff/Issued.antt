-- ===== src/Forward/Handoff/Issued.antt =====
-- A handoff that has been issued can be redeemed (server/src/user/auth/forward.rs).
use authere.Base.{
  ℕ, ◌+◌, ◌<◌, ◌≡◌, refl, ◌∙◌, sym, ap, inl, inr, Bool, true, false, Option, some, leb, unwrap_or,
  arith, Bool-cases, Option-cases,
}
use authere.Base.Text.{Text, codes, same, same_refl}
use authere.Base.Rows.{find, delete_where, count_where, count_where-of_find, count_where_le}
use authere.Base.Errors.{ok, Result-cases}
use authere.Session.{
  Claims, HandoffRow, Store, verify_user_session, user_session_version, verify_legacy,
}
use authere.Forward.Handoff.{
  Handoff, Crates, valid_state, is_handoff, insert_handoff, session_for, handoff_for, store_handoff,
  issue_handoff, is_misused, decode_handoff, take_handoff, redeem_handoff,
}

abbrev has_jti : Text → HandoffRow → Bool
has_jti jti row = same row.id jti

-- The row is there once, and sessions are as they were.
inserted :
    (row : HandoffRow) (now later : ℕ) (store : Store) (issued_at : ℕ) (version : Option ℕ)
    → (insert_handoff row now store).0 ≡ ok tt
    → later < row.expires_at
    → (count_where (is_handoff row.id row.user_id later) (insert_handoff row now store).1.handoffs
        ≡ 1)
      × (verify_user_session row.user_id issued_at version (insert_handoff row now store).1
          ≡ verify_user_session row.user_id issued_at version store)
unfolding insert_handoff count_where verify_user_session user_session_version verify_legacy
inserted row now later store issued_at version h soon =
    elim (Option-cases (
      find (has_jti row.id)
        (delete_where (λ (r : HandoffRow). leb r.expires_at now) store.handoffs))) [
          | inr (other, there) ↦ ground arith
          | inl free ↦
              let none_there = count_where-of_find (has_jti row.id) _ free in
              let fewer =
                count_where_le (has_jti row.id) (is_handoff row.id row.user_id later)
                  (delete_where (λ (r : HandoffRow). leb r.expires_at now) store.handoffs)
                  (λ r e. ground arith) in
              rw (insert_handoff, free) (ground (arith, same_refl row.id), refl)
        ]

module _ (crates : Crates) where
  open crates use {sign_handoff, sign_session, read_handoff, in_time, state_hash, parse_uuid}

  stored :
      (handoff : Handoff) (now : ℕ) (store : Store) (token : Text)
      → (store_handoff crates handoff now store).0 ≡ ok token
      → (sign_handoff handoff ≡ some token)
        × ((insert_handoff
              (record { id = handoff.jti; user_id = handoff.session.sub; expires_at = handoff.exp })
              now
              store).0
            ≡ ok tt)
        × ((store_handoff crates handoff now store).1
            ≡ (insert_handoff
                (record {
                  id = handoff.jti;
                  user_id = handoff.session.sub;
                  expires_at = handoff.exp;
                })
                now
                store).1)
  unfolding store_handoff
  stored handoff now store token h = elim (Option-cases (sign_handoff handoff)) [
    | inl failed ↦ ground arith
    | inr (t, signed) ↦
        elim (Result-cases
          (insert_handoff
            (record { id = handoff.jti; user_id = handoff.session.sub; expires_at = handoff.exp })
            now store).0) [
              | inr (e, taken) ↦ ground arith
              | inl (u, fine) ↦ (ground arith, fine, rw (store_handoff, signed) refl)
            ]
  ]

  -- The handoff that a request for a user makes.
  abbrev pub made : Text → ℕ → ℕ → Claims → ℕ → Text → Text → Text → Handoff
  made jti now user_id parent application_id origin redirect_path state =
      handoff_for crates jti now (session_for user_id parent application_id origin) redirect_path
        state

  issued :
      (jti : Text) (now user_id : ℕ) (parent : Claims) (application_id : ℕ)
      (origin redirect_path state token : Text) (store : Store)
      → parse_uuid parent.sub ≡ some user_id
      → (issue_handoff crates jti now parent application_id origin redirect_path state store).0
        ≡ ok token
      → (valid_state state ≡ true)
        × (verify_user_session user_id parent.iat parent.session_version store ≡ ok tt)
        × (issue_handoff crates jti now parent application_id origin redirect_path state store
            ≡ store_handoff crates
                (made jti now user_id parent application_id origin redirect_path state)
                now
                store)
  unfolding issue_handoff
  issued jti now user_id parent application_id origin redirect_path state token store named h =
      elim (Bool-cases (valid_state state)) [
        | inr bad ↦ ground arith
        | inl good ↦ elim (Bool-cases (leb (unwrap_or parent.session_exp parent.exp) now)) [
          | inl over ↦ ground arith
          | inr runs ↦
              elim (Result-cases
                (verify_user_session user_id parent.iat parent.session_version store)) [
                  | inr (e, refused) ↦ ground arith
                  | inl (u, fine) ↦ (good, fine, rw (issue_handoff, good, named, runs, fine) refl)
                ]
        ]
      ]

  redeemed :
      (handoff : Handoff) (origin state token session_token : Text) (later : ℕ) (store : Store)
      → read_handoff origin token ≡ some handoff
      → in_time later handoff.exp ≡ true
      → is_misused crates later origin state handoff ≡ false
      → verify_user_session handoff.session.sub handoff.session.iat handoff.session.session_version
          store
        ≡ ok tt
      → count_where (is_handoff handoff.jti handoff.session.sub later) store.handoffs ≡ 1
      → sign_session handoff.session ≡ some session_token
      → (redeem_handoff crates token origin state later store).0
        ≡ ok (session_token, handoff.session, handoff.redirect_path)
  unfolding redeem_handoff decode_handoff take_handoff
  redeemed handoff origin state token session_token later store read in_time_now fine current one
        signed =
      ground arith

  fine_use :
      (jti : Text) (now later user_id : ℕ) (parent : Claims) (application_id : ℕ)
      (origin redirect_path state : Text)
      → valid_state state ≡ true
      → later < unwrap_or parent.session_exp parent.exp
      → is_misused crates later origin state
          (made jti now user_id parent application_id origin redirect_path state)
        ≡ false
  unfolding is_misused session_for handoff_for
  fine_use jti now later user_id parent application_id origin redirect_path state good runs =
      ground
        (arith, same_refl (codes "forward-handoff"), same_refl (state_hash state), same_refl origin)

  -- Suppose that the token, if it signs the handoff, is read back as that handoff, that the crate lets a
  -- token pass before its expiry, and that the session can be signed. Then a handoff is redeemed by
  -- its state within 60 seconds of its issue and before the session's deadline, for the session and
  -- the path that it was issued for.
  pub redeem_handoff-issue :
      (jti : Text) (now later user_id : ℕ) (parent : Claims) (application_id : ℕ)
      (origin redirect_path state token session_token : Text) (store : Store)
      → (sign_handoff (made jti now user_id parent application_id origin redirect_path state)
            ≡ some token
          → read_handoff origin token
            ≡ some (made jti now user_id parent application_id origin redirect_path state))
      → ((time exp : ℕ) → time < exp → in_time time exp ≡ true)
      → parse_uuid parent.sub ≡ some user_id
      → sign_session (session_for user_id parent application_id origin) ≡ some session_token
      → (issue_handoff crates jti now parent application_id origin redirect_path state store).0
        ≡ ok token
      → later < now + 60
      → later < unwrap_or parent.session_exp parent.exp
      → (redeem_handoff crates token origin state later
          (issue_handoff crates jti now parent application_id origin redirect_path state store).1).0
        ≡ ok (session_token, session_for user_id parent application_id origin, redirect_path)
  unfolding handoff_for session_for
  redeem_handoff-issue jti now later user_id parent application_id origin redirect_path state token
        session_token store reads times named signs h soon runs =
      let handoff = made jti now user_id parent application_id origin redirect_path state in
      let (good, current, same_run) =
        issued jti now user_id parent application_id origin redirect_path state token store named
          h in
      let (signed, put, after) =
        stored handoff now store token (ap (λ p. p.0) (sym same_run) ∙ h) in
      let row : HandoffRow = record { id = jti; user_id = user_id; expires_at = handoff.exp } in
      let alive : later < handoff.exp = omega arith in
      let (one, unchanged) =
        inserted row now later store parent.iat parent.session_version put alive in
      rw (same_run, after)
        (redeemed handoff origin state token session_token later (insert_handoff row now store).1
          (reads signed) (times later handoff.exp alive)
          (fine_use jti now later user_id parent application_id origin redirect_path state good
            runs)
          (unchanged ∙ current) one signs)
