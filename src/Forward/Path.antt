-- ===== src/Forward/Path.antt =====
-- server/src/handlers/auth.rs: `safe_local_path` and `normalize_policy_path`, the one reading of a
-- request path that access policies are matched against. Percent decoding is the urlencoding
-- crate's, a parameter.
pub mod Segments
pub mod Slashed
pub mod Normal
mod Examples
use authere.Base.{
  ℕ, zero, suc, Bool, true, false, not, ◌&&◌, ◌||◌, Option, none, some, String, List, [], ◌∷◌, ◌++◌,
  any, is_empty, reverse, ◌==◌, if◌then◌else◌,
}
use mathlib.Core.List.{tail}
use authere.Base.Text.{Text, codes, same, starts_with, is_ascii_control}
use authere.Base.Errors.{AppError, input_error, Result, ok, err, ◌>>=◌}

abbrev pub is_unsafe : ℕ → Bool
is_unsafe b = b == b'\\' || is_ascii_control b

unfoldable pub safe_local_path : Text → Bool
safe_local_path path =
    starts_with path (codes "/") && not (starts_with path (codes "//")) && not (any is_unsafe path)

-- `path.contains("//")`
unfoldable pub has_double_slash : Text → Bool
has_double_slash [] = false
has_double_slash (c ∷ []) = false
has_double_slash (c ∷ d ∷ rest) = c == b'/' && d == b'/' || has_double_slash (d ∷ rest)

-- `path.contains('%')`
abbrev pub has_percent : Text → Bool
has_percent path = any (λ b. b == b'%') path

unfoldable pub ends_with_slash : Text → Bool
ends_with_slash [] = false
ends_with_slash (c ∷ []) = c == b'/'
ends_with_slash (c ∷ d ∷ rest) = ends_with_slash (d ∷ rest)

-- `path.split('/')`; `cur` is the segment that is being read.
unfoldable pub split_from : Text → Text → List Text
split_from cur [] = cur ∷ []
split_from cur (c ∷ rest) =
    let closed = cur ∷ split_from [] rest in
    let longer = split_from (cur ++ c ∷ []) rest in if c == b'/' then closed else longer

-- one round of the loop over the segments; the stack has its top at the head
unfoldable pub resolve : List Text → Text → List Text
resolve stack segment =
    if is_empty segment || same segment (codes ".")
    then stack
    else if same segment (codes "..")
    then tail stack
    else segment ∷ stack

unfoldable pub resolve_all : List Text → List Text → List Text
resolve_all stack [] = stack
resolve_all stack (segment ∷ segments) = resolve_all (resolve stack segment) segments

-- `segments.join("/")`
unfoldable pub join : List Text → Text
join [] = []
join (s ∷ []) = s
join (s ∷ t ∷ rest) = s ++ b'/' ∷ join (t ∷ rest)

-- The path of some segments, with or without a slash at its end.
unfoldable pub render : List Text → Bool → Text
render segments trailing =
    let normalized : Text = b'/' ∷ join segments in
    if trailing && not (same normalized (codes "/")) then normalized ++ b'/' ∷ [] else normalized

abbrev invalid_path : AppError
invalid_path = input_error ("Invalid URL path" ∷ [])

abbrev pub ambiguous_path : AppError
ambiguous_path = input_error ("Ambiguous URL path" ∷ [])

-- What follows the decoding.
unfoldable pub canonicalize : Text → Result Text AppError
canonicalize decoded =
    if not (safe_local_path decoded) || has_percent decoded || has_double_slash decoded
    then err ambiguous_path
    else ok (render (reverse (resolve_all [] (split_from [] decoded))) (ends_with_slash decoded))

module _ (decode : Text → Option Text) where
  -- the loop that decodes until nothing changes, for `rounds` rounds at most
  unfoldable pub decode_rounds : ℕ → Text → Result Text AppError
  decode_rounds zero decoded = ok decoded
  decode_rounds (suc rounds) decoded = elim (decode decoded) [
    | none ↦ err invalid_path
    | some next ↦
        let again = decode_rounds rounds next in if same next decoded then ok decoded else again
  ]

  unfoldable pub normalize_policy_path : Text → Result Text AppError
  normalize_policy_path path = do decoded ← decode_rounds 5 path; canonicalize decoded
