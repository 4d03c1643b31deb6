-- ===== src/Forward/Path/Segments.antt =====
-- Splitting, resolving and joining the segments of a path (server/src/handlers/auth.rs,
-- `normalize_policy_path`).
use authere.Base.{
  ℕ, ◌≡◌, ◌≢◌, refl, ap, inl, inr, false, ◌||◌, List, [], ◌∷◌, ◌++◌, arith, All, is_empty, ◌==◌,
  Bool-cases,
}
use mathlib.Core.List.{append_assoc, append-nil, tail}
use authere.Base.Text.{Text, codes, same, same_iff}
use authere.Forward.Path.{is_unsafe, split_from, resolve, resolve_all}

-- A byte that neither separates nor confuses.
abbrev pub IsPlainByte : ℕ → Type 0
IsPlainByte b = (b ≢ b'/') × (b ≢ b'%') × (is_unsafe b ≡ false)

-- A segment that stays as it is: not empty, not `.` or `..`, and of plain bytes.
abbrev pub IsPlain : Text → Type 0
IsPlain s = (s ≢ []) × (s ≢ codes ".") × (s ≢ codes "..") × All IsPlainByte s

All-append : (P : ℕ → Type 0) (xs : Text) (x : ℕ) → All P xs → P x → All P (xs ++ x ∷ [])
All-append P [] x h p = (p, tt)
All-append P (y ∷ xs) x h p = (h.0, All-append P xs x h.1 p)

-- Every segment of a text of good bytes is of plain bytes.
abbrev pub IsGoodByte : ℕ → Type 0
IsGoodByte b = (b ≢ b'%') × (is_unsafe b ≡ false)

pub split_from-plain :
    (cur s : Text)
    → All IsPlainByte cur
    → All IsGoodByte s
    → All (All IsPlainByte) (split_from cur s)
unfolding split_from
split_from-plain cur [] h k = (h, tt)
split_from-plain cur (c ∷ s) h k = elim (Bool-cases (c == b'/')) [
  | inl slash ↦ rw slash (h, split_from-plain [] s tt k.1)
  | inr other ↦ rw other (
      split_from-plain (cur ++ c ∷ []) s
        (All-append IsPlainByte cur c h (ground arith, k.0.0, k.0.1)) k.1)
]

tail-IsPlain : (stack : List Text) → All IsPlain stack → All IsPlain (tail stack)
tail-IsPlain [] h = h
tail-IsPlain (s ∷ stack) h = h.1

-- A segment that is pushed is plain.
IsPlain-segment :
    (segment : Text)
    → All IsPlainByte segment
    → is_empty segment || same segment (codes ".") ≡ false
    → same segment (codes "..") ≡ false
    → IsPlain segment
IsPlain-segment segment k goes down = (
  λ e. ground (arith, ap is_empty e),
  λ e. ground (arith, (same_iff segment (codes ".")).1 e),
  λ e. ground (arith, (same_iff segment (codes "..")).1 e),
  k,
)

resolve-IsPlain :
    (stack : List Text) (segment : Text)
    → All IsPlain stack
    → All IsPlainByte segment
    → All IsPlain (resolve stack segment)
unfolding resolve
resolve-IsPlain stack segment h k =
    elim (Bool-cases (is_empty segment || same segment (codes "."))) [
      | inl stays ↦ rw stays h
      | inr goes ↦ elim (Bool-cases (same segment (codes ".."))) [
        | inl up ↦ rw (goes, up) (tail-IsPlain stack h)
        | inr down ↦ rw (goes, down) ((IsPlain-segment segment k goes down), h)
      ]
    ]

pub resolve_all-IsPlain :
    (stack segments : List Text)
    → All IsPlain stack
    → All (All IsPlainByte) segments
    → All IsPlain (resolve_all stack segments)
unfolding resolve_all
resolve_all-IsPlain stack [] h k = h
resolve_all-IsPlain stack (segment ∷ segments) h k =
    resolve_all-IsPlain (resolve stack segment) segments (resolve-IsPlain stack segment h k.0) k.1

-- The other way: plain segments come back from the text that joins them.
pub split_from-append :
    (cur s rest : Text)
    → All IsPlainByte s
    → split_from cur (s ++ rest) ≡ split_from (cur ++ s) rest
unfolding split_from
split_from-append cur [] rest h = rw append-nil refl
split_from-append cur (c ∷ s) rest h =
    let other : (c == b'/') ≡ false = ground (arith, h.0.0) in
    let ih = split_from-append (cur ++ c ∷ []) s rest h.1 in
    rw (other, ih, append_assoc cur (c ∷ []) s) refl

-- A plain segment is pushed on the stack.
pub resolve-of_plain : (stack : List Text) (s : Text) → IsPlain s → resolve stack s ≡ s ∷ stack
unfolding resolve
resolve-of_plain stack s (full, dot, dots, bytes) =
    let a : is_empty s ≡ false = not_empty s full in
    let b = not_same s (codes ".") dot in let c = not_same s (codes "..") dots in ground arith
  where
    not_empty : (t : Text) → t ≢ [] → is_empty t ≡ false
    not_empty [] h = absurd (h refl)
    not_empty (x ∷ t) h = refl

    not_same : (t u : Text) → t ≢ u → same t u ≡ false
    not_same t u h = ground (arith, (same_iff t u).0)
