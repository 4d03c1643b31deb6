-- ===== src/Invitation/Spent.antt =====
-- How often an invitation of server/src/invitation.rs is consumed.
use authere.Base.{
  ℕ, suc, ◌+◌, ◌≤◌, ◌≡◌, ◌∙◌, refl, true, false, ◌&&◌, some, List, [], ◌∷◌, arith, Bool-cases,
  Option-cases, inl, inr, is_some, if◌then◌else◌,
}
use authere.Base.Text.{Text, same, same_iff}
use authere.Base.Rows.{find, find-update_where, find_passes}
use authere.Invitation.{Invitation, Invitations, has_id, used, is_after, is_usable, consume}

-- requests to consume an invitation: its id, and the time
abbrev pub Requests : Type 0
Requests = List (Text × ℕ)

-- how many of the requests consume the invitation with an id
unfoldable pub redeemed : Text → Requests → Invitations → ℕ
redeemed id [] rows = 0
redeemed id (request ∷ requests) rows =
    let outcome = consume request.0 request.1 rows in
    let later = redeemed id requests outcome.1 in
    if same request.0 id && is_some outcome.0 then suc later else later

same_sym : (a b : Text) → same a b ≡ same b a
unfolding same
same_sym [] [] = refl
same_sym [] (y ∷ ys) = refl
same_sym (x ∷ xs) [] = refl
same_sym (x ∷ xs) (y ∷ ys) = ground (arith, same_sym xs ys)

same-of_same : (a b i : Text) → same a b ≡ true → same a i ≡ same i b
same-of_same a b i h = let e : a ≡ b = (same_iff a b).0 h in rw (e) (same_sym b i)

-- what a request does to the row with an id
find-consume :
    (id i : Text) (now : ℕ) (rows : Invitations) (r : Invitation)
    → find (has_id id) rows ≡ some r
    → find (has_id id) (consume i now rows).1
      ≡ some (if same i id && is_some (consume i now rows).0 then used r else r)
unfolding consume
find-consume id i now rows r h =
    let same_id = same-of_same r.id id i (find_passes (has_id id) rows r h) in
    let updated = find-update_where (has_id id) (has_id i) used rows (λ x. refl) in
    elim (Option-cases (find (has_id i) rows)) [
      | inl missing ↦ rw (consume, missing) (ground (arith, h))
      | inr (row, e) ↦ elim (Bool-cases (is_usable now row)) [
        | inl usable ↦ rw (consume, e, usable) (updated ∙ rw (h) (ground (arith, same_id)))
        | inr spent ↦ rw (consume, e, spent) (ground (arith, h))
      ]
    ]

-- Only an invitation with uses left is consumed.
consume_left :
    (id i : Text) (now : ℕ) (rows : Invitations) (r : Invitation)
    → find (has_id id) rows ≡ some r
    → (same i id && is_some (consume i now rows).0) ≡ true
    → is_after r.uses r.max_uses ≡ true
unfolding consume
consume_left id i now rows r h taken =
    let same_id : i ≡ id = (same_iff i id).0 (ground arith) in
    let found : find (has_id i) rows ≡ some r = rw (same_id) h in
    elim (Bool-cases (is_usable now r)) [
      | inl usable ↦ ground arith
      | inr spent ↦
          let none_taken : is_some (consume i now rows).0 ≡ false =
            rw (consume, found, spent) refl in
          ground arith
    ]

-- While an invitation can be used at most `m` times, requests consume it at most as often as it has
-- uses left, in whatever order they come and whatever other invitations they are for.
pub redeemed_le :
    (id : Text) (m : ℕ) (requests : Requests) (rows : Invitations) (r : Invitation)
    → find (has_id id) rows ≡ some r
    → r.max_uses ≡ some m
    → r.uses ≤ m
    → redeemed id requests rows + r.uses ≤ m
unfolding redeemed
redeemed_le id m [] rows r h limit within = omega arith
redeemed_le id m (request ∷ requests) rows r h limit within =
    let (i, now) = request in
    let after = (consume i now rows).1 in
    let row = find-consume id i now rows r h in
    elim (Bool-cases (same i id && is_some (consume i now rows).0)) [
      | inl taken ↦
          let left : r.uses + 1 ≤ m = ground (arith, consume_left id i now rows r h taken, limit) in
          let rest = redeemed_le id m requests after (used r) (row ∙ rw (taken) refl) limit left in
          rw (taken) (omega (arith, rest))
      | inr other ↦
          let rest = redeemed_le id m requests after r (row ∙ rw (other) refl) limit within in
          rw (other) (omega (arith, rest))
    ]
