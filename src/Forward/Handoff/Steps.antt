-- ===== src/Forward/Handoff/Steps.antt =====
-- What may happen between two redemptions of a handoff (server/src/user/auth/forward.rs): a handoff
-- that is gone does not come back.
use authere.Base.{
  ℕ, ◌==◌, ◌≡◌, refl, inl, inr, false, is_some, leb, arith, Bool-cases, Option-cases, unwrap_or,
}
use authere.Base.Text.{Text, same}
use authere.Base.Rows.{find, delete_where, count_where, count-delete_where_le}
use authere.Base.Errors.{Result-cases}
use authere.Session.{Claims, HandoffRow, Store, verify_user_session, sweep_expired_sessions}
use authere.Forward.Handoff.{
  Handoff, Crates, valid_state, is_handoff, insert_handoff, session_for, handoff_for, store_handoff,
  issue_handoff, is_misused, decode_handoff, take_handoff, redeem_handoff,
}

-- No row stands for the handoff of a user at a time.
abbrev pub IsGone : Text → ℕ → ℕ → Store → Type 0
IsGone jti user_id later store = count_where (is_handoff jti user_id later) store.handoffs ≡ 0

module _ (crates : Crates) where
  -- A request or a sweep, when the id of the handoff is not drawn again.
  pub data Step (jti : Text) : Store → Store → Type 0 where
    issues :
        (other : Text) (now : ℕ) (parent : Claims) (application_id : ℕ)
        (target_origin redirect_path state : Text) (store : Store)
        → same other jti ≡ false
        → Step jti store
            (issue_handoff crates other now parent application_id target_origin redirect_path state
              store).1
    redeems :
        (token target_origin state : Text) (now : ℕ) (store : Store)
        → Step jti store (redeem_handoff crates token target_origin state now store).1
    sweeps : (now : ℕ) (store : Store) → Step jti store (sweep_expired_sessions now store)
    elsewhere : (store after : Store) → after.handoffs ≡ store.handoffs → Step jti store after

  pub data Steps (jti : Text) : Store → Store → Type 0 where
    done : (store : Store) → Steps jti store store
    next :
        (store between after : Store)
        → Step jti store between
        → Steps jti between after
        → Steps jti store after

  insert_handoff-IsGone :
      (jti : Text) (user_id later : ℕ) (row : HandoffRow) (now : ℕ) (store : Store)
      → same row.id jti ≡ false
      → IsGone jti user_id later store
      → IsGone jti user_id later (insert_handoff row now store).1
  unfolding insert_handoff count_where
  insert_handoff-IsGone jti user_id later row now store apart gone =
      let left =
        count-delete_where_le (λ (r : HandoffRow). leb r.expires_at now)
          (is_handoff jti user_id later) store.handoffs in
      let before = gone in
      elim (Bool-cases (
        is_some (
          find (λ (r : HandoffRow). same r.id row.id)
            (delete_where (λ (r : HandoffRow). leb r.expires_at now) store.handoffs)))) [
              | inl taken ↦ rw (insert_handoff, taken) (omega (arith, left, before))
              | inr free ↦ rw (insert_handoff, free, apart) (omega (arith, left, before))
            ]

  store_handoff-IsGone :
      (jti : Text) (user_id later : ℕ) (handoff : Handoff) (now : ℕ) (store : Store)
      → same handoff.jti jti ≡ false
      → IsGone jti user_id later store
      → IsGone jti user_id later (store_handoff crates handoff now store).1
  unfolding store_handoff
  store_handoff-IsGone jti user_id later handoff now store apart gone =
      elim (Option-cases (crates.sign_handoff handoff)) [
        | inl failed ↦ rw (store_handoff, failed) gone
        | inr (token, signed) ↦
            rw (store_handoff, signed)
              (insert_handoff-IsGone jti user_id later
                (record {
                  id = handoff.jti;
                  user_id = handoff.session.sub;
                  expires_at = handoff.exp;
                })
                now store apart gone)
      ]

  issue_handoff-IsGone :
      (jti : Text) (user_id later : ℕ) (other : Text) (now : ℕ) (parent : Claims)
      (application_id : ℕ) (target_origin redirect_path state : Text) (store : Store)
      → same other jti ≡ false
      → IsGone jti user_id later store
      → IsGone jti user_id later
          (issue_handoff crates other now parent application_id target_origin redirect_path state
            store).1
  unfolding issue_handoff handoff_for
  issue_handoff-IsGone jti user_id later other now parent application_id target_origin redirect_path
        state store apart gone =
      elim (Bool-cases (valid_state state)) [
        | inr invalid ↦ rw (issue_handoff, invalid) gone
        | inl valid ↦ elim (Option-cases (crates.parse_uuid parent.sub)) [
          | inl unreadable ↦ rw (issue_handoff, valid, unreadable) gone
          | inr (subject, read) ↦
              elim (Bool-cases (leb (unwrap_or parent.session_exp parent.exp) now)) [
                | inl over ↦ rw (issue_handoff, valid, read, over) gone
                | inr runs ↦
                    elim (Result-cases
                      (verify_user_session subject parent.iat parent.session_version store)) [
                        | inr (e, bad) ↦ rw (issue_handoff, valid, read, runs, bad) gone
                        | inl (u, good) ↦
                            rw (issue_handoff, valid, read, runs, good)
                              (store_handoff-IsGone jti user_id later
                                (handoff_for crates other now
                                  (session_for subject parent application_id target_origin)
                                  redirect_path state)
                                now store apart gone)
                      ]
              ]
        ]
      ]

  pub take_after :
      (handoff : Handoff) (now : ℕ) (store : Store)
      → (take_handoff crates handoff now store).1.handoffs
        ≡ delete_where (is_handoff handoff.jti handoff.session.sub now) store.handoffs
  unfolding take_handoff
  take_after handoff now store =
      elim (Bool-cases
        (count_where (is_handoff handoff.jti handoff.session.sub now) store.handoffs == 1)) [
          | inr other ↦ rw other refl
          | inl one ↦ elim (Option-cases (crates.sign_session handoff.session)) [
            | inl failed ↦ rw (one, failed) refl
            | inr (token, signed) ↦ rw (one, signed) refl
          ]
        ]

  redeem_handoff-IsGone :
      (jti : Text) (user_id later : ℕ) (token target_origin state : Text) (now : ℕ) (store : Store)
      → IsGone jti user_id later store
      → IsGone jti user_id later (redeem_handoff crates token target_origin state now store).1
  unfolding redeem_handoff
  redeem_handoff-IsGone jti user_id later token target_origin state now store gone =
      elim (Option-cases (decode_handoff crates now target_origin token)) [
        | inl bad ↦ rw (redeem_handoff, bad) gone
        | inr (handoff, decoded) ↦
            elim (Bool-cases (is_misused crates now target_origin state handoff)) [
              | inl misused ↦ rw (redeem_handoff, decoded, misused) gone
              | inr fine ↦
                  elim (Result-cases (
                    verify_user_session handoff.session.sub handoff.session.iat
                      handoff.session.session_version store)) [
                        | inr (e, bad) ↦ rw (redeem_handoff, decoded, fine, bad) gone
                        | inl (u, good) ↦
                            let left =
                              count-delete_where_le (is_handoff handoff.jti handoff.session.sub now)
                                (is_handoff jti user_id later) store.handoffs in
                            let before = gone in
                            rw (redeem_handoff, decoded, fine, good, take_after handoff now store)
                              (omega (arith, left, before))
                      ]
            ]
      ]

  Step-IsGone :
      {jti : Text} {store after : Store} (user_id later : ℕ)
      → Step jti store after
      → IsGone jti user_id later store
      → IsGone jti user_id later after
  unfolding sweep_expired_sessions
  Step-IsGone {jti} user_id later
        (issues other now parent application_id target_origin redirect_path state store apart)
        gone =
      issue_handoff-IsGone jti user_id later other now parent application_id target_origin
        redirect_path state store apart gone
  Step-IsGone {jti} user_id later (redeems token target_origin state now store) gone =
      redeem_handoff-IsGone jti user_id later token target_origin state now store gone
  Step-IsGone {jti} user_id later (sweeps now store) gone =
      let left =
        count-delete_where_le (λ (r : HandoffRow). leb r.expires_at now)
          (is_handoff jti user_id later) store.handoffs in
      let before = gone in omega (arith, left, before)
  Step-IsGone user_id later (elsewhere store after kept) gone = rw kept gone

  -- A handoff that is gone stays so.
  pub Steps-IsGone :
      {jti : Text} {store after : Store} (user_id later : ℕ)
      → Steps jti store after
      → IsGone jti user_id later store
      → IsGone jti user_id later after
  Steps-IsGone user_id later (done store) gone = gone
  Steps-IsGone user_id later (next store between after step steps) gone =
      Steps-IsGone user_id later steps (Step-IsGone user_id later step gone)
