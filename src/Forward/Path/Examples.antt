-- ===== src/Forward/Path/Examples.antt =====
-- Request paths through `normalize_policy_path` (server/src/handlers/auth.rs). The decoder of these
-- runs reads `%2e` as `.` and keeps every other byte.
use authere.Base.{◌≡◌, refl, false, ◌&&◌, Option, some, [], ◌∷◌, ◌==◌, if◌then◌else◌, arith}
use authere.Base.Text.{Text, codes, same, starts_with}
use authere.Base.Errors.{ok, err}
use authere.Forward.Path.{
  safe_local_path, has_double_slash, has_percent, ends_with_slash, split_from, resolve, resolve_all,
  join, render, canonicalize, decode_rounds, normalize_policy_path, ambiguous_path,
}
use authere.Forward.Path.Normal.{IsNormal, normalize_policy_path-IsNormal}

paths : Unit {0}
unfolding safe_local_path has_double_slash ends_with_slash split_from resolve resolve_all join
    render canonicalize decode_rounds normalize_policy_path same starts_with
paths = tt

decode_dots : Text → Text
decode_dots (a ∷ b ∷ c ∷ rest) =
    let short = b'.' ∷ decode_dots rest in
    let long = a ∷ decode_dots (b ∷ c ∷ rest) in
    if a == b'%' && b == b'2' && c == b'e' then short else long
decode_dots rest = rest

abbrev decode : Text → Option Text
decode path = some (decode_dots path)

decode_dots-plain : (path : Text) → has_percent path ≡ false → decode_dots path ≡ path
unfolding decode_dots
decode_dots-plain [] h = refl
decode_dots-plain (a ∷ []) h = refl
decode_dots-plain (a ∷ b ∷ []) h = refl
decode_dots-plain (a ∷ b ∷ c ∷ rest) h = ground (arith, decode_dots-plain (b ∷ c ∷ rest))

abbrev sneaky : Text
sneaky = codes "/public/%2e%2e/admin/./users/"

path_tests :
    (normalize_policy_path decode sneaky ≡ ok (codes "/admin/users/"))
    × (normalize_policy_path decode (codes "/a//b") ≡ err ambiguous_path)
    × (normalize_policy_path decode (codes "/../..") ≡ ok (codes "/"))
unfolding paths decode_dots
path_tests = (refl, refl, refl)

normalize_policy_path-IsNormal_example : IsNormal (codes "/admin/users/")
unfolding paths decode_dots
normalize_policy_path-IsNormal_example =
    normalize_policy_path-IsNormal decode sneaky (codes "/admin/users/") refl
