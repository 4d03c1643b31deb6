-- ===== src/Ldap/Ber/Bounded.antt =====
-- The walk over a BER frame ends (`validate_ber_structure` of server/src/ldap/server.rs).
use authere.Base.{
  ℕ, zero, suc, ◌+◌, ◌-◌, ◌*◌, ◌%◌, ◌≤◌, ◌≡◌, ◌⊎◌, refl, inl, inr, Bool, true, none, some, List, [],
  ◌∷◌, ◌==◌, ltb, length, take, is_some, arith, Bool-cases, Option-cases,
}
use authere.Base.Text.{Text}
use authere.Base.Errors.{Result, ok, err, Result-cases}
use authere.Ldap.Ber.{
  FrameError, checked, read_length, header_of, ber_header, slice, is_constructed, Walk, enter,
  round, walk, validate_ber_structure,
}

checked-ok : (n m : ℕ) → checked n ≡ ok m → n ≡ m
unfolding checked
checked-ok n m h = ground arith

header_of-ok :
    (length_byte : ℕ) (rest : Text) (header body : ℕ)
    → header_of length_byte rest ≡ ok (some (header, body))
    → 2 ≤ header
unfolding header_of
header_of-ok length_byte rest header body h = elim (Bool-cases (ltb length_byte 128)) [
  | inl short ↦ ground arith
  | inr long ↦ elim (Result-cases (read_length 0 (take (length_byte % 128) rest))) [
    | inl (n, read) ↦ ground arith
    | inr (e, failed) ↦ ground arith
  ]
]

-- What a round leaves: one end fewer, or a position that is at least two further on, within the
-- frame, with one end more at most.
abbrev IsFurther : Text → List ℕ → ℕ → Walk → Type 0
IsFurther frame outer position next =
    (length next.ends ≤ length outer + 2)
    × (position + 2 ≤ next.position)
    × (next.position ≤ length frame)

ber_header-ok :
    (bytes : Text) (header body : ℕ) → ber_header bytes ≡ ok (some (header, body)) → 2 ≤ header
unfolding ber_header
ber_header-ok [] header body h = ground arith
ber_header-ok (tag ∷ []) header body h = ground arith
ber_header-ok (tag ∷ length_byte ∷ rest) header body h = header_of-ok length_byte rest header body h

enter-IsFurther :
    (frame : Text) (constructed : Bool) (parent_end : ℕ) (outer : List ℕ) (position header body : ℕ)
    (next : Walk)
    → 2 ≤ header
    → parent_end ≤ length frame
    → enter constructed parent_end outer position (header, body) ≡ ok next
    → IsFurther frame outer position next
unfolding enter
enter-IsFurther frame constructed parent_end outer position header body next big inside h =
    elim (Result-cases (checked (position + header))) [
      | inr (e, failed) ↦ ground arith
      | inl (body_start, s) ↦ elim (Result-cases (checked (body_start + body))) [
        | inr (e, failed) ↦ ground arith
        | inl (body_end, t) ↦
            let start = checked-ok (position + header) body_start s in
            let stop = checked-ok (body_start + body) body_end t in
            (ground arith, ground arith, ground arith)
      ]
    ]

slice_inside :
    (from until : ℕ) (frame part : Text) → slice from until frame ≡ some part → until ≤ length frame
unfolding slice
slice_inside from until frame part h = ground arith

abbrev IsRound : Text → ℕ → List ℕ → ℕ → Walk → Type 0
IsRound frame parent_end outer position next =
    ((next.ends ≡ outer) × (next.position ≡ position)) ⊎ IsFurther frame outer position next

round-IsRound :
    (frame : Text) (parent_end : ℕ) (outer : List ℕ) (position : ℕ) (next : Walk)
    → round frame parent_end outer position ≡ ok next
    → IsRound frame parent_end outer position next
unfolding round
round-IsRound frame parent_end outer position next h = elim (Bool-cases (position == parent_end)) [
  | inl done ↦ inl (ground arith)
  | inr within ↦ elim (Option-cases (slice position parent_end frame)) [
    | inl outside ↦ ground arith
    | inr (part, cut) ↦ elim (Result-cases (ber_header part)) [
      | inr (e, bad) ↦ ground arith
      | inl (none, short) ↦ ground arith
      | inl (some (header, body), read) ↦ inr (
          enter-IsFurther frame (is_constructed part) parent_end outer position header body next
            (ber_header-ok part header body read) (slice_inside position parent_end frame part cut)
            (ground arith))
    ]
  ]
]

walk_enough :
    (rounds : ℕ) (frame : Text) (ends : List ℕ) (position : ℕ)
    → 2 * (length frame - position) + length ends ≤ rounds
    → is_some (walk rounds frame ends position) ≡ true
unfolding walk
walk_enough zero frame [] position h = refl
walk_enough (suc rounds) frame [] position h = refl
walk_enough zero frame (parent_end ∷ outer) position h = ground arith
walk_enough (suc rounds) frame (parent_end ∷ outer) position h =
    elim (Result-cases (round frame parent_end outer position)) [
      | inr (e, failed) ↦ ground arith
      | inl (next, stepped) ↦
          let smaller : 2 * (length frame - next.position) + length next.ends ≤ rounds =
            elim (round-IsRound frame parent_end outer position next stepped) [
              | inl (popped, stays) ↦ ground arith
              | inr (fewer, further, inside) ↦ ground arith
            ] in
          let rest = walk_enough rounds frame next.ends next.position smaller in ground arith
    ]

enter_depth :
    (constructed : Bool) (parent_end : ℕ) (outer : List ℕ) (position header body : ℕ) (next : Walk)
    → length (parent_end ∷ outer) ≤ 32
    → enter constructed parent_end outer position (header, body) ≡ ok next
    → length next.ends ≤ 32
unfolding enter
enter_depth constructed parent_end outer position header body next shallow h =
    elim (Result-cases (checked (position + header))) [
      | inr (e, failed) ↦ ground arith
      | inl (body_start, s) ↦ elim (Result-cases (checked (body_start + body))) [
        | inr (e, failed) ↦ ground arith
        | inl (body_end, t) ↦ ground arith
      ]
    ]

round_depth :
    (frame : Text) (parent_end : ℕ) (outer : List ℕ) (position : ℕ) (next : Walk)
    → length (parent_end ∷ outer) ≤ 32
    → round frame parent_end outer position ≡ ok next
    → length next.ends ≤ 32
unfolding round
round_depth frame parent_end outer position next shallow h =
    elim (Bool-cases (position == parent_end)) [
      | inl done ↦ ground arith
      | inr within ↦ elim (Option-cases (slice position parent_end frame)) [
        | inl outside ↦ ground arith
        | inr (part, cut) ↦ elim (Result-cases (ber_header part)) [
          | inr (e, bad) ↦ ground arith
          | inl (none, short) ↦ ground arith
          | inl (some (header, body), read) ↦
              enter_depth (is_constructed part) parent_end outer position header body next shallow
                (ground arith)
        ]
      ]
    ]

-- The variables of the walk after some rounds, if none has refused the frame.
unfoldable pub walk_after : ℕ → Text → List ℕ → ℕ → Result Walk FrameError
walk_after n frame [] position = ok (record { ends = []; position = position })
walk_after zero frame (parent_end ∷ outer) position =
    ok (record { ends = parent_end ∷ outer; position = position })
walk_after (suc n) frame (parent_end ∷ outer) position =
    elim (round frame parent_end outer position) [
      | err e ↦ err e
      | ok next ↦ walk_after n frame next.ends next.position
    ]

walk_depth :
    (n : ℕ) (frame : Text) (ends : List ℕ) (position : ℕ) (w : Walk)
    → length ends ≤ 32
    → walk_after n frame ends position ≡ ok w
    → length w.ends ≤ 32
unfolding walk_after
walk_depth zero frame [] position w shallow h = ground arith
walk_depth (suc n) frame [] position w shallow h = ground arith
walk_depth zero frame (parent_end ∷ outer) position w shallow h = ground arith
walk_depth (suc n) frame (parent_end ∷ outer) position w shallow h =
    elim (Result-cases (round frame parent_end outer position)) [
      | inr (e, failed) ↦ ground arith
      | inl (next, stepped) ↦
          walk_depth n frame next.ends next.position w
            (round_depth frame parent_end outer position next shallow stepped) (ground arith)
    ]

-- However many values a frame nests, at most 32 of them are open at any time of the walk.
validate_ber_structure_depth :
    (n : ℕ) (frame : Text) (w : Walk)
    → walk_after n frame (length frame ∷ []) 0 ≡ ok w
    → length w.ends ≤ 32
validate_ber_structure_depth n frame w h =
    walk_depth n frame (length frame ∷ []) 0 w (omega arith) h

-- The walk over a frame ends: it needs no more rounds than twice the frame's bytes and one, so
-- every frame is either accepted or refused.
pub validate_ber_structure_ends : (frame : Text) → is_some (validate_ber_structure frame) ≡ true
unfolding validate_ber_structure
validate_ber_structure_ends frame =
    walk_enough (2 * length frame + 1) frame (length frame ∷ []) 0 (omega arith)
