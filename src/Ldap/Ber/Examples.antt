-- ===== src/Ldap/Ber/Examples.antt =====
-- Small BER frames (server/src/ldap/server.rs).
use authere.Base.{◌≡◌, refl, true, none, some, [], ◌∷◌, is_some}
use authere.Base.Text.{Text}
use authere.Base.Errors.{ok, err}
use authere.Ldap.Ber.{
  invalid_frame, checked, read_length, header_of, ber_header, slice, is_constructed, Walk, enter,
  round, walk, validate_ber_structure,
}
use authere.Ldap.Ber.Bounded.{validate_ber_structure_ends, walk_after}

frames : Unit {0}
unfolding checked read_length header_of ber_header slice is_constructed enter round walk
    validate_ber_structure walk_after
frames = tt

-- A sequence of an integer and a string.
abbrev message : Text
message = 48 ∷ 7 ∷ 2 ∷ 1 ∷ 5 ∷ 4 ∷ 2 ∷ 97 ∷ 98 ∷ []

-- The string is one byte longer than the sequence.
abbrev overrun : Text
overrun = 48 ∷ 7 ∷ 2 ∷ 1 ∷ 5 ∷ 4 ∷ 3 ∷ 97 ∷ 98 ∷ []

frame_tests :
    (validate_ber_structure message ≡ some (ok tt))
    × (validate_ber_structure overrun ≡ some (err invalid_frame))
    × (ber_header (48 ∷ 130 ∷ 1 ∷ 0 ∷ []) ≡ ok (some (4, 256)))
    × (ber_header (48 ∷ 128 ∷ []) ≡ err invalid_frame)
    × (ber_header (48 ∷ 130 ∷ 1 ∷ []) ≡ ok none)
unfolding frames
frame_tests = (refl, refl, refl, refl, refl)

validate_ber_structure_ends_example : is_some (validate_ber_structure message) ≡ true
validate_ber_structure_ends_example = validate_ber_structure_ends message

abbrev inside : Walk
inside = record { ends = 9 ∷ 9 ∷ []; position = 5 }
