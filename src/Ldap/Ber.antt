-- ===== src/Ldap/Ber.antt =====
-- server/src/ldap/server.rs: the checks of a BER frame before the protocol's parser sees it. Bytes
-- are numbers below 256, sizes have 64 bits, and `None` of a header means that bytes are missing.
-- The parser of the ldap3_proto crate and its size limit are parameters.
pub mod Bounded
mod Examples
use authere.Base.{
  ℕ, zero, suc, ◌+◌, ◌-◌, ◌*◌, ◌/◌, ◌%◌, Bool, true, false, not, ◌&&◌, ◌||◌, Option, none, some,
  List, [], ◌∷◌, ◌==◌, leb, ltb, if◌then◌else◌, length, take, drop,
}
use authere.Base.Text.{Text}
use authere.Base.Errors.{Result, ok, err, ◌>>=◌}

-- The one error: a frame that is too large or invalid.
pub data FrameError : Type 0 where
  invalid_frame : FrameError

abbrev max_ber_depth : ℕ
max_ber_depth = 32

-- a sum or a product that must fit in a `usize`
unfoldable pub checked : ℕ → Result ℕ FrameError
checked n = if ltb n 18446744073709551616 then ok n else err invalid_frame

-- the loop over the octets of a length
unfoldable pub read_length : ℕ → Text → Result ℕ FrameError
read_length n [] = ok n
read_length n (byte ∷ bytes) = elim (checked (n * 256)) [
  | err e ↦ err e
  | ok scaled ↦ elim (checked (scaled + byte)) [ err e ↦ err e | ok next ↦ read_length next bytes ]
]

-- `ber_header` with at least two bytes: the length byte, and the bytes after it
unfoldable pub header_of : ℕ → Text → Result (Option (ℕ × ℕ)) FrameError
header_of length_byte rest =
    if ltb length_byte 128
    then ok (some (2, length_byte))
    else let octets = length_byte % 128 in
      if octets == 0 || ltb 8 octets
      then err invalid_frame
      else if ltb (length rest) octets
      then ok none
      else read_length 0 (take octets rest) >>= (λ n. ok (some (2 + octets, n)))

-- `ber_header`
unfoldable pub ber_header : Text → Result (Option (ℕ × ℕ)) FrameError
ber_header [] = ok none
ber_header (tag ∷ []) = ok none
ber_header (tag ∷ length_byte ∷ rest) = header_of length_byte rest

-- `frame.get(position..parent_end)`
unfoldable pub slice : ℕ → ℕ → Text → Option Text
slice from until frame =
    if leb from until && leb until (length frame)
    then some (take (until - from) (drop from frame))
    else none

-- `remaining[0] & 0x20 != 0`
unfoldable pub is_constructed : Text → Bool
is_constructed [] = false
is_constructed (tag ∷ rest) = tag / 32 % 2 == 1

-- The variables of the loop: the ends that are open, the innermost first, and the position.
pub record Walk : Type 0 where
  pub ends : List ℕ
  pub position : ℕ

-- what a value with a header makes of them
unfoldable pub enter : Bool → ℕ → List ℕ → ℕ → ℕ × ℕ → Result Walk FrameError
enter constructed parent_end outer position (header, body) =
    checked (position + header) >>= (λ body_start. checked (body_start + body) >>= (λ body_end.
      if ltb parent_end body_end
      then err invalid_frame
      else if not constructed
      then ok (record { ends = parent_end ∷ outer; position = body_end })
      else if leb max_ber_depth (length (parent_end ∷ outer))
      then err invalid_frame
      else ok (record { ends = body_end ∷ parent_end ∷ outer; position = body_start })))

-- one round of the loop
unfoldable pub round : Text → ℕ → List ℕ → ℕ → Result Walk FrameError
round frame parent_end outer position =
    if position == parent_end
    then ok (record { ends = outer; position = position })
    else elim (slice position parent_end frame) [
      | none ↦ err invalid_frame
      | some remaining ↦ elim (ber_header remaining) [
        | err e ↦ err e
        | ok none ↦ err invalid_frame
        | ok (some header) ↦ enter (is_constructed remaining) parent_end outer position header
      ]
    ]

-- The loop, for `rounds` rounds at most; `none` when they do not suffice.
unfoldable pub walk : ℕ → Text → List ℕ → ℕ → Option (Result (Unit {0}) FrameError)
walk rounds frame [] position = some (ok tt)
walk zero frame (parent_end ∷ outer) position = none
walk (suc rounds) frame (parent_end ∷ outer) position =
    elim (round frame parent_end outer position) [
      | err e ↦ some (err e)
      | ok next ↦ walk rounds frame next.ends next.position
    ]

-- `validate_ber_structure`
unfoldable pub validate_ber_structure : Text → Option (Result (Unit {0}) FrameError)
validate_ber_structure frame = walk (2 * length frame + 1) frame (length frame ∷ []) 0
