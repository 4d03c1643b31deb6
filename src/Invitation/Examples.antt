-- ===== src/Invitation/Examples.antt =====
-- An invitation that can be used once (server/src/invitation.rs).
use authere.Base.{◌≡◌, ◌+◌, ◌≤◌, refl, true, false, none, some, [], ◌∷◌, arith}
use authere.Base.Text.{codes, same}
use authere.Base.Rows.{find, update_where, delete_where, count_where}
use authere.Base.Errors.{input_error, ok, err}
use authere.Invitation.{
  Invitation, Invitations, CreateInvitationInput, active, expired, exhausted, new, is_valid,
  status_of, save, delete, used, consume, validate_input,
}
use authere.Invitation.Spent.{Requests, redeemed, redeemed_le}

invitations : Unit {0}
unfolding same find update_where delete_where count_where new is_valid status_of save delete consume
    validate_input redeemed
invitations = tt

abbrev once : CreateInvitationInput
once = record { label = none; max_uses = some 1; expires_at = some 10 }

abbrev invitation : Invitation
invitation = record {
  id = codes "i";
  created_by = 7;
  label = none;
  max_uses = some 1;
  uses = 0;
  expires_at = some 10;
  created_at = 3;
}

abbrev rows : Invitations
rows = invitation ∷ []

abbrev requests : Requests
requests = (codes "i", 10) ∷ (codes "j", 4) ∷ (codes "i", 5) ∷ (codes "i", 6) ∷ []

invitation_tests :
    (new (codes "i") 3 once 7 ≡ invitation)
    × (save invitation [] ≡ (ok tt, rows))
    × (redeemed (codes "i") requests rows ≡ 1)
    × (consume (codes "i") 5 rows ≡ (some (used invitation), used invitation ∷ []))
    × (status_of 5 invitation ≡ active)
    × (status_of 10 invitation ≡ expired)
    × (status_of 5 (used invitation) ≡ exhausted)
    × (is_valid 5 (used invitation) ≡ false)
    × (delete (codes "i") rows ≡ (true, []))
    × (validate_input 10 once ≡ err (input_error ("expires_at must be in the future" ∷ [])))
unfolding invitations
invitation_tests = (refl, refl, refl, refl, refl, refl, refl, refl, refl, refl)

redeemed_le_example : redeemed (codes "i") requests rows + 0 ≤ 1
unfolding invitations
redeemed_le_example = redeemed_le (codes "i") 1 requests rows invitation refl refl (omega arith)
