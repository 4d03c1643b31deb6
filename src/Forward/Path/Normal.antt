-- ===== src/Forward/Path/Normal.antt =====
-- What `normalize_policy_path` (server/src/handlers/auth.rs) returns: paths of plain segments, and
-- each such path is its own normal form.
use authere.Base.{
  ℕ, suc, ◌≡◌, refl, ap, ◌∙◌, inl, inr, Bool, true, false, Option, some, List, [], ◌∷◌, ◌++◌, arith,
  any, All, reverse, ◌==◌,
}
use mathlib.Core.List.{reverse_aux}
use authere.Base.Text.{Text, codes, same, same_refl, starts_with}
use authere.Base.Errors.{ok, Result-cases}
use authere.Forward.Path.{
  is_unsafe, safe_local_path, has_double_slash, has_percent, ends_with_slash, split_from, resolve,
  resolve_all, join, render, canonicalize, decode_rounds, normalize_policy_path,
}
use authere.Forward.Path.Segments.{
  IsPlainByte, IsPlain, IsGoodByte, split_from-plain, resolve_all-IsPlain,
}
use authere.Forward.Path.Slashed.{
  bytes_of, slashed, slash_end, render-eq, any-slashed, any-slash_end, double-slashed, ends-slashed,
  split_from-slashed, resolve_all-slashed,
}

-- The normal paths: rendered from plain segments.
abbrev pub IsNormal : Text → Type 0
IsNormal path =
    (segments : List Text) × (trailing : Bool) × All IsPlain segments
    × (path ≡ render segments trailing)

plain_unsafe : (b : ℕ) → IsPlainByte b → is_unsafe b ≡ false
plain_unsafe b h = h.2

plain_percent : (b : ℕ) → IsPlainByte b → (b == b'%') ≡ false
plain_percent b h = ground (arith, h.1)

canonicalize-root : (t : Bool) → canonicalize (render [] t) ≡ ok (render [] t)
unfolding canonicalize render safe_local_path starts_with has_double_slash split_from resolve_all
    resolve ends_with_slash join same
canonicalize-root true = refl
canonicalize-root false = refl

one_slash :
    (s : Text) (ss : List Text) (rest : Text)
    → IsPlain s
    → starts_with (slashed (s ∷ ss) ++ rest) (codes "//") ≡ false
unfolding starts_with slashed
one_slash [] ss rest h = absurd (h.0 refl)
one_slash (c ∷ s) ss rest h = ground (arith, (bytes_of (c ∷ s) h).0.0)

one_slash-root :
    (s : Text) (ss : List Text) (rest : Text)
    → starts_with (slashed (s ∷ ss) ++ rest) (codes "/") ≡ true
unfolding starts_with slashed
one_slash-root s ss rest = refl

double-end : (t : Bool) → has_double_slash (slash_end t) ≡ false
unfolding has_double_slash slash_end
double-end true = refl
double-end false = refl

ends-end : (t : Bool) → ends_with_slash (slash_end t) ≡ t
unfolding ends_with_slash slash_end
ends-end true = refl
ends-end false = refl

percent-root : (t : Bool) → has_percent (render [] t) ≡ false
unfolding render join same
percent-root true = refl
percent-root false = refl

module _ (s : Text) (ss : List Text) (t : Bool) (h : All IsPlain (s ∷ ss)) where
  safe-slashed : safe_local_path (slashed (s ∷ ss) ++ slash_end t) ≡ true
  unfolding safe_local_path
  safe-slashed = ground (
    arith,
    any-slashed is_unsafe refl plain_unsafe (s ∷ ss) (slash_end t) h,
    any-slash_end is_unsafe t refl,
    one_slash s ss (slash_end t) h.0,
    one_slash-root s ss (slash_end t),
  )

  percent-slashed : has_percent (slashed (s ∷ ss) ++ slash_end t) ≡ false
  percent-slashed =
      any-slashed (λ b. b == b'%') refl plain_percent (s ∷ ss) (slash_end t) h
      ∙ any-slash_end (λ b. b == b'%') t refl

  double-slash_end : has_double_slash (slashed (s ∷ ss) ++ slash_end t) ≡ false
  double-slash_end = double-slashed (s ∷ ss) (slash_end t) h ∙ double-end t

  ends-slash_end : ends_with_slash (slashed (s ∷ ss) ++ slash_end t) ≡ t
  ends-slash_end = ends-slashed (s ∷ ss) (slash_end t) h ∙ ends-end t

  -- `canonicalize` leaves a normal path as it is.
  canonicalize-slashed :
      canonicalize (slashed (s ∷ ss) ++ slash_end t) ≡ ok (slashed (s ∷ ss) ++ slash_end t)
  unfolding canonicalize resolve_all resolve
  canonicalize-slashed =
      let resolved : reverse (resolve_all [] (split_from [] (slashed (s ∷ ss) ++ slash_end t)))
          ≡ s ∷ ss =
        ap (λ xs. reverse (resolve_all [] xs)) (split_from-slashed [] (s ∷ ss) t h)
        ∙ resolve_all-slashed [] (s ∷ ss) t h in
      let back = render-eq s ss t h.0.0 in
      rw (safe-slashed, percent-slashed, double-slash_end, ends-slash_end, resolved, back) refl

canonicalize-render :
    (segments : List Text) (trailing : Bool)
    → All IsPlain segments
    → canonicalize (render segments trailing) ≡ ok (render segments trailing)
canonicalize-render [] t h = canonicalize-root t
canonicalize-render (s ∷ ss) t h = rw (render-eq s ss t h.0.0) (canonicalize-slashed s ss t h)

percent-render :
    (segments : List Text) (t : Bool)
    → All IsPlain segments
    → has_percent (render segments t) ≡ false
percent-render [] t h = percent-root t
percent-render (s ∷ ss) t h = rw (render-eq s ss t h.0.0) (percent-slashed s ss t h)

-- The other way: what `canonicalize` returns is normal.
good_bytes : (s : Text) → any is_unsafe s ≡ false → has_percent s ≡ false → All IsGoodByte s
good_bytes [] u p = tt
good_bytes (c ∷ s) u p =
    ((ground (arith, p), ground (arith, u)), good_bytes s (ground (arith, u)) (ground (arith, p)))

All-reverse_aux :
    (xs ys : List Text) → All IsPlain xs → All IsPlain ys → All IsPlain (reverse_aux xs ys)
All-reverse_aux [] ys h k = k
All-reverse_aux (x ∷ xs) ys h k = All-reverse_aux xs (x ∷ ys) h.1 (h.0, k)

All-reverse : (xs : List Text) → All IsPlain xs → All IsPlain (reverse xs)
All-reverse xs h = All-reverse_aux xs [] h tt

canonicalize-IsNormal : (path out : Text) → canonicalize path ≡ ok out → IsNormal out
unfolding canonicalize safe_local_path
canonicalize-IsNormal path out h = (
  reverse (resolve_all [] (split_from [] path)),
  ends_with_slash path,
  All-reverse _ (
      resolve_all-IsPlain [] (split_from [] path) tt
        (split_from-plain [] path tt (good_bytes path (ground arith) (ground arith)))),
  ground arith,
)

module _ (decode : Text → Option Text) where
  -- A path that is accepted is returned in normal form: `/` and plain segments between single
  -- slashes. No segment is empty, `.` or `..`, and no byte is `%`, a backslash or a control byte,
  -- whatever the percent decoder does.
  pub normalize_policy_path-IsNormal :
      (path out : Text) → normalize_policy_path decode path ≡ ok out → IsNormal out
  unfolding normalize_policy_path
  normalize_policy_path-IsNormal path out h = elim (Result-cases (decode_rounds decode 5 path)) [
    | inl (decoded, e) ↦ canonicalize-IsNormal decoded out (ground arith)
    | inr (problem, e) ↦ ground arith
  ]

  decode_rounds-of_fixed :
      (rounds : ℕ) (path : Text)
      → decode path ≡ some path
      → decode_rounds decode (suc rounds) path ≡ ok path
  unfolding decode_rounds
  decode_rounds-of_fixed rounds path kept = ground (arith, same_refl path)

  -- If the decoder leaves a text without `%` as it is, a normal path is its own normal form; so
  -- normalizing twice is normalizing once.
  normalize_policy_path-of_normal :
      (path : Text)
      → ((s : Text) → has_percent s ≡ false → decode s ≡ some s)
      → IsNormal path
      → normalize_policy_path decode path ≡ ok path
  unfolding normalize_policy_path
  normalize_policy_path-of_normal path decode_plain (segments, trailing, plain, e) =
      let fixed = canonicalize-render segments trailing plain in
      let kept : decode path ≡ some path =
        decode_plain path (rw e (percent-render segments trailing plain)) in
      rw (decode_rounds-of_fixed 4 path kept, e) fixed
