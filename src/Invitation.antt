-- ===== src/Invitation.antt =====
-- server/src/invitation.rs: the invitations to register, over the rows of `invitations`, whose ids are
-- unique. The random id and the clock are arguments.
pub mod Spent
mod Examples
use authere.Base.{
  ℕ, ◌+◌, Bool, true, false, not, ◌&&◌, Option, none, some, String, List, [], ◌∷◌, ◌++◌, length,
  is_empty, is_some, ltb, leb, if◌then◌else◌,
}
use authere.Base.Text.{Text, same}
use authere.Base.Rows.{find, update_where, delete_where, count_where}
use authere.Base.Errors.{AppError, input_error, from_sqlx, Result, ok, err}

pub record Invitation : Type 0 where
  pub id : Text
  pub created_by : ℕ
  pub label : Option Text
  pub max_uses : Option ℕ
  pub uses : ℕ
  pub expires_at : Option ℕ
  pub created_at : ℕ

pub record CreateInvitationInput : Type 0 where
  pub label : Option Text
  pub max_uses : Option ℕ
  pub expires_at : Option ℕ

pub data Status : Type 0 where
  active expired exhausted : Status

abbrev pub Invitations : Type 0
Invitations = List Invitation

abbrev pub has_id : Text → Invitation → Bool
has_id id row = same row.id id

-- `Invitation::new`
unfoldable pub new : Text → ℕ → CreateInvitationInput → ℕ → Invitation
new id now input created_by = record {
  id = id;
  created_by = created_by;
  label = input.label;
  max_uses = input.max_uses;
  uses = 0;
  expires_at = input.expires_at;
  created_at = now;
}

-- `map_or(true, |exp| exp > now)`; `map_or(true, |max| uses < max)`
abbrev pub is_after : ℕ → Option ℕ → Bool
is_after now none = true
is_after now (some t) = ltb now t

-- `is_valid`
unfoldable pub is_valid : ℕ → Invitation → Bool
is_valid now row = is_after now row.expires_at && is_after row.uses row.max_uses

-- the status of a row in `list`
unfoldable pub status_of : ℕ → Invitation → Status
status_of now row =
    if not (is_after now row.expires_at)
    then expired
    else if not (is_after row.uses row.max_uses)
    then exhausted
    else active

-- `save`
unfoldable pub save : Invitation → Invitations → Result (Unit {0}) AppError × Invitations
save row rows =
    if is_some (find (has_id row.id) rows)
    then (err (from_sqlx true ""), rows)
    else (ok tt, row ∷ rows)

-- `get`
unfoldable pub get : Text → Invitations → Option Invitation
get id rows = find (has_id id) rows

-- `delete`
unfoldable pub delete : Text → Invitations → Bool × Invitations
delete id rows = (ltb 0 (count_where (has_id id) rows), delete_where (has_id id) rows)

-- `SET uses = uses + 1`
abbrev pub used : Invitation → Invitation
used row = record row { uses = row.uses + 1 }

-- the condition of the UPDATE of `consume`, on the row with the id
abbrev pub is_usable : ℕ → Invitation → Bool
is_usable now row = is_after row.uses row.max_uses && is_after now row.expires_at

-- `consume`
unfoldable pub consume : Text → ℕ → Invitations → Option Invitation × Invitations
consume id now rows = elim (find (has_id id) rows) [
  | none ↦ (none, rows)
  | some row ↦
      if is_usable now row
      then (some (used row), update_where (has_id id) used rows)
      else (none, rows)
]

abbrev pub when : Bool → String → List String
when true message = message ∷ []
when false message = []

abbrev pub exists {ℓ} : {A : Type ℓ} → (A → Bool) → Option A → Bool
exists p none = false
exists p (some a) = p a

-- `validate_input`
unfoldable pub validate_input : ℕ → CreateInvitationInput → Result (Unit {0}) AppError
validate_input now input =
    let errors =
      when (exists (λ n. ltb n 1) input.max_uses) "max_uses must be at least 1"
      ++ when (exists (λ t. leb t now) input.expires_at) "expires_at must be in the future"
      ++ when (exists (λ label. ltb 128 (length label)) input.label)
          "label must be 128 characters or fewer" in
    if is_empty errors then ok tt else err (input_error errors)
