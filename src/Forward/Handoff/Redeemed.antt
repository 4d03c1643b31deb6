-- ===== src/Forward/Handoff/Redeemed.antt =====
-- When a handoff is redeemed, and that it is redeemed once (server/src/user/auth/forward.rs).
use authere.Base.{
  ℕ, ◌≤◌, ◌<◌, ◌≡◌, refl, sym, subst, inl, inr, true, false, some, ◌==◌, arith, Bool-cases,
  Option-cases,
}
use authere.Base.Text.{Text, codes, same_iff}
use authere.Base.Rows.{delete_where, count_where, count-delete_where_zero}
use authere.Base.Errors.{ok, is_ok, Result-cases}
use authere.Session.{Store, verify_user_session}
use authere.Session.Verified.{IsCurrent, verify_user_session_iff}
use authere.Forward.Handoff.Steps.{Steps, IsGone, Steps-IsGone, take_after}
use authere.Forward.Handoff.{
  ForwardSession, Handoff, Crates, valid_state, is_handoff, is_misused, decode_handoff,
  take_handoff, redeem_handoff,
}

module _ (crates : Crates) where
  open crates use {sign_session, read_handoff, in_time, state_hash}

  -- What holds when a handoff is redeemed.
  pub record IsRedeemed (token origin state : Text) (now : ℕ) (store : Store)
      (out : Text × ForwardSession × Text) : Type 0 where
    pub handoff : Handoff
    pub decoded : decode_handoff crates now origin token ≡ some handoff
    pub kind : handoff.typ ≡ codes "forward-handoff"
    pub state_valid : valid_state state ≡ true
    pub bound : handoff.state_hash ≡ state_hash state
    pub audience : handoff.session.aud ≡ origin
    pub runs : now < handoff.session.exp
    pub current :
        IsCurrent handoff.session.sub handoff.session.session_version handoff.session.iat store
    pub unused : count_where (is_handoff handoff.jti handoff.session.sub now) store.handoffs ≡ 1
    pub session : out.1 ≡ handoff.session
    pub path : out.2 ≡ handoff.redirect_path

  taken :
      (handoff : Handoff) (now : ℕ) (store : Store) (out : Text × ForwardSession × Text)
      → (take_handoff crates handoff now store).0 ≡ ok out
      → (count_where (is_handoff handoff.jti handoff.session.sub now) store.handoffs ≡ 1)
        × (out.1 ≡ handoff.session)
        × (out.2 ≡ handoff.redirect_path)
  unfolding take_handoff
  taken handoff now store out h =
      elim (Bool-cases
        (count_where (is_handoff handoff.jti handoff.session.sub now) store.handoffs == 1)) [
          | inr other ↦ ground arith
          | inl one ↦ elim (Option-cases (sign_session handoff.session)) [
            | inl failed ↦ ground arith
            | inr (token, signed) ↦ (ground arith, ground arith, ground arith)
          ]
        ]

  -- A handoff that is redeemed was signed by the server for this origin; the state is the one that
  -- the browser began with, the session still runs and has not been revoked, and the handoff was
  -- unused. What comes out is the session and the path that were signed.
  pub redeem_handoff-IsRedeemed :
      (token origin state : Text) (now : ℕ) (store : Store) (out : Text × ForwardSession × Text)
      → (redeem_handoff crates token origin state now store).0 ≡ ok out
      → IsRedeemed token origin state now store out
  unfolding redeem_handoff is_misused
  redeem_handoff-IsRedeemed token origin state now store out h =
      elim (Option-cases (decode_handoff crates now origin token)) [
        | inl bad ↦ ground arith
        | inr (handoff, decoded) ↦ elim (Bool-cases (is_misused crates now origin state handoff)) [
          | inl misused ↦ ground arith
          | inr fine ↦
              elim (Result-cases (
                verify_user_session handoff.session.sub handoff.session.iat
                  handoff.session.session_version store)) [
                    | inr (e, bad) ↦ ground arith
                    | inl (u, good) ↦
                        let took : (take_handoff crates handoff now store).0 ≡ ok out =
                          ground arith in
                        let (one, session, path) = taken handoff now store out took in
                        record {
                          handoff = handoff;
                          decoded = decoded;
                          kind = (same_iff handoff.typ (codes "forward-handoff")).0 (ground arith);
                          state_valid = ground arith;
                          bound = (same_iff handoff.state_hash (state_hash state)).0 (ground arith);
                          audience = (same_iff handoff.session.aud origin).0 (ground arith);
                          runs = ground arith;
                          current =
                              (verify_user_session_iff handoff.session.sub handoff.session.iat
                                  handoff.session.session_version store).0
                                good;
                          unused = one;
                          session = session;
                          path = path;
                        }
                  ]
        ]
      ]

  redeem_after :
      (token origin state : Text) (now : ℕ) (store : Store) (out : Text × ForwardSession × Text)
      (handoff : Handoff)
      → (redeem_handoff crates token origin state now store).0 ≡ ok out
      → decode_handoff crates now origin token ≡ some handoff
      → (redeem_handoff crates token origin state now store).1.handoffs
        ≡ delete_where (is_handoff handoff.jti handoff.session.sub now) store.handoffs
  unfolding redeem_handoff
  redeem_after token origin state now store out handoff h decoded =
      elim (Bool-cases (is_misused crates now origin state handoff)) [
        | inl misused ↦ ground arith
        | inr fine ↦
            elim (Result-cases (
              verify_user_session handoff.session.sub handoff.session.iat
                handoff.session.session_version store)) [
                  | inr (e, bad) ↦ ground arith
                  | inl (u, good) ↦
                      rw (redeem_handoff, decoded, fine, good) (take_after crates handoff now store)
                ]
      ]

  same_handoff :
      (token origin : Text) (now later : ℕ) (a b : Handoff)
      → decode_handoff crates now origin token ≡ some a
      → decode_handoff crates later origin token ≡ some b
      → a ≡ b
  unfolding decode_handoff
  same_handoff token origin now later a b x y = elim (Option-cases (read_handoff origin token)) [
    | inl bad ↦ ground arith
    | inr (handoff, read) ↦ elim (Bool-cases (in_time now handoff.exp)) [
      | inr late ↦ ground arith
      | inl early ↦ elim (Bool-cases (in_time later handoff.exp)) [
        | inr late ↦ ground arith
        | inl soon ↦ ground arith
      ]
    ]
  ]

  -- A handoff that has been redeemed is never redeemed again for the origin, whatever state is
  -- presented, if the clock does not run back and its id is not drawn again: whatever handoffs are
  -- issued and redeemed, whatever sweeps there are, and whatever else happens in between that leaves
  -- the handoffs as they are.
  pub redeem_handoff_once :
      (token origin state other : Text) (now later : ℕ) (store between : Store)
      (out : Text × ForwardSession × Text) (handoff : Handoff)
      → decode_handoff crates now origin token ≡ some handoff
      → (redeem_handoff crates token origin state now store).0 ≡ ok out
      → now ≤ later
      → Steps crates handoff.jti (redeem_handoff crates token origin state now store).1 between
      → is_ok (redeem_handoff crates token origin other later between).0 ≡ false
  redeem_handoff_once token origin state other now later store between out handoff decoded h after
        steps =
      let left = redeem_after token origin state now store out handoff h decoded in
      let gone : IsGone handoff.jti handoff.session.sub later
          (redeem_handoff crates token origin state now store).1 =
        rw left (
          count-delete_where_zero (is_handoff handoff.jti handoff.session.sub now)
            (is_handoff handoff.jti handoff.session.sub later) store.handoffs
            (λ r e. ground arith)) in
      let still = Steps-IsGone crates handoff.session.sub later steps gone in
      elim (Result-cases (redeem_handoff crates token origin other later between).0) [
        | inr (e, failed) ↦ rw failed refl
        | inl (again, redeemed) ↦
            let second =
              redeem_handoff-IsRedeemed token origin other later between again redeemed in
            let same_one =
              same_handoff token origin now later handoff second.handoff decoded second.decoded in
            let found =
              subst (λ x. count_where (is_handoff x.jti x.session.sub later) between.handoffs ≡ 1)
                (sym same_one) second.unused in
            absurd (omega (arith, still, found))
      ]
