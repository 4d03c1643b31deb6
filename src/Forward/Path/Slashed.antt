-- ===== src/Forward/Path/Slashed.antt =====
-- Paths written as segments behind a slash each, and how the scans and the splitting of
-- `normalize_policy_path` (server/src/handlers/auth.rs) read them.
use authere.Base.{
  ℕ, ◌≡◌, ◌≢◌, refl, ap, ◌∙◌, Bool, true, false, List, [], ◌∷◌, ◌++◌, arith, any, All, reverse,
  ◌==◌,
}
use mathlib.Core.List.{append_assoc, append-nil, reverse-cons}
use authere.Base.Text.{Text, same}
use authere.Forward.Path.{
  has_double_slash, ends_with_slash, split_from, resolve, resolve_all, join, render,
}
use authere.Forward.Path.Segments.{IsPlainByte, IsPlain, split_from-append, resolve-of_plain}

pub bytes_of : (s : Text) → IsPlain s → All IsPlainByte s
bytes_of s (full, dot, dots, bytes) = bytes

-- Segments behind a slash each, and the slash at the end.
unfoldable pub slashed : List Text → Text
slashed [] = []
slashed (s ∷ ss) = b'/' ∷ s ++ slashed ss

unfoldable pub slash_end : Bool → Text
slash_end true = b'/' ∷ []
slash_end false = []

join-cons : (s : Text) (ss : List Text) → b'/' ∷ join (s ∷ ss) ≡ slashed (s ∷ ss)
unfolding join slashed
join-cons s [] = rw append-nil refl
join-cons s (t ∷ ss) = rw (join-cons t ss) refl

join_full : (c : ℕ) (s : Text) (ss : List Text) → same (join ((c ∷ s) ∷ ss)) [] ≡ false
unfolding join same
join_full c s [] = refl
join_full c s (t ∷ ss) = refl

pub render-eq :
    (s : Text) (ss : List Text) (trailing : Bool)
    → s ≢ []
    → render (s ∷ ss) trailing ≡ slashed (s ∷ ss) ++ slash_end trailing
unfolding render same slashed slash_end
render-eq [] ss trailing h = absurd (h refl)
render-eq (c ∷ s) ss true h =
    let more : same (join ((c ∷ s) ∷ ss)) [] ≡ false = join_full c s ss in
    rw more (ap (λ x. x ++ b'/' ∷ []) (join-cons (c ∷ s) ss))
render-eq (c ∷ s) ss false h = rw (join-cons (c ∷ s) ss, append-nil) refl

-- A test that no plain byte and no slash passes.
module _ (p : ℕ → Bool) (slash : p b'/' ≡ false)
    (plain : (b : ℕ) → IsPlainByte b → p b ≡ false) where
  any-append_plain : (s rest : Text) → All IsPlainByte s → any p (s ++ rest) ≡ any p rest
  any-append_plain [] rest h = refl
  any-append_plain (c ∷ s) rest h = ground (arith, plain c h.0, any-append_plain s rest h.1)

  pub any-slashed :
      (ss : List Text) (rest : Text) → All IsPlain ss → any p (slashed ss ++ rest) ≡ any p rest
  unfolding slashed
  any-slashed [] rest h = refl
  any-slashed (s ∷ ss) rest h =
      rw
        (
          slash,
          append_assoc s (slashed ss) rest,
          any-append_plain s (slashed ss ++ rest) (bytes_of s h.0),
        )
        (any-slashed ss rest h.1)

pub any-slash_end : (p : ℕ → Bool) (t : Bool) → p b'/' ≡ false → any p (slash_end t) ≡ false
unfolding slash_end
any-slash_end p true h = rw h refl
any-slash_end p false h = refl

double-append :
    (s rest : Text) → All IsPlainByte s → has_double_slash (s ++ rest) ≡ has_double_slash rest
unfolding has_double_slash
double-append [] rest h = refl
double-append (c ∷ []) [] h = refl
double-append (c ∷ []) (d ∷ rest) h = ground (arith, h.0.0)
double-append (c ∷ d ∷ s) rest h = ground (arith, h.0.0, double-append (d ∷ s) rest h.1)

pub double-slashed :
    (ss : List Text) (rest : Text)
    → All IsPlain ss
    → has_double_slash (slashed ss ++ rest) ≡ has_double_slash rest
unfolding has_double_slash slashed
double-slashed [] rest h = refl
double-slashed ([] ∷ ss) rest h = absurd (h.0.0 refl)
double-slashed ((c ∷ s) ∷ ss) rest h =
    let first : (c == b'/') ≡ false = ground (arith, (bytes_of (c ∷ s) h.0).0.0) in
    rw
      (
        first,
        append_assoc s (slashed ss) rest,
        double-append (c ∷ s) (slashed ss ++ rest) (bytes_of (c ∷ s) h.0),
      )
      (double-slashed ss rest h.1)

ends-append :
    (s rest : Text) → All IsPlainByte s → ends_with_slash (s ++ rest) ≡ ends_with_slash rest
unfolding ends_with_slash
ends-append [] rest h = refl
ends-append (c ∷ []) [] h = ground (arith, h.0.0)
ends-append (c ∷ []) (d ∷ rest) h = refl
ends-append (c ∷ d ∷ s) rest h = ends-append (d ∷ s) rest h.1

pub ends-slashed :
    (ss : List Text) (rest : Text)
    → All IsPlain ss
    → ends_with_slash (slashed ss ++ rest) ≡ ends_with_slash rest
unfolding ends_with_slash slashed
ends-slashed [] rest h = refl
ends-slashed ([] ∷ ss) rest h = absurd (h.0.0 refl)
ends-slashed ((c ∷ s) ∷ ss) rest h =
    rw
      (
        append_assoc s (slashed ss) rest,
        ends-append (c ∷ s) (slashed ss ++ rest) (bytes_of (c ∷ s) h.0),
      )
      (ends-slashed ss rest h.1)

unfoldable pub last_segments : Bool → List Text
last_segments true = [] ∷ []
last_segments false = []

pub split_from-slashed :
    (cur : Text) (ss : List Text) (t : Bool)
    → All IsPlain ss
    → split_from cur (slashed ss ++ slash_end t) ≡ cur ∷ ss ++ last_segments t
unfolding split_from slashed slash_end last_segments
split_from-slashed cur [] true h = refl
split_from-slashed cur [] false h = refl
split_from-slashed cur (s ∷ ss) t h =
    rw
      (
        append_assoc s (slashed ss) (slash_end t),
        split_from-append [] s (slashed ss ++ slash_end t) (bytes_of s h.0),
        split_from-slashed s ss t h.1,
      )
      refl

pub resolve_all-slashed :
    (stack ss : List Text) (t : Bool)
    → All IsPlain ss
    → reverse (resolve_all stack (ss ++ last_segments t)) ≡ reverse stack ++ ss
unfolding resolve_all last_segments resolve
resolve_all-slashed stack [] true h = rw append-nil refl
resolve_all-slashed stack [] false h = rw append-nil refl
resolve_all-slashed stack (s ∷ ss) t h =
    let pushed : resolve_all stack (s ∷ ss ++ last_segments t)
        ≡ resolve_all (s ∷ stack) (ss ++ last_segments t) =
      ap (λ st. resolve_all st (ss ++ last_segments t)) (resolve-of_plain stack s h.0) in
    let shown : reverse (s ∷ stack) ++ ss ≡ reverse stack ++ s ∷ ss =
      ap (λ x. x ++ ss) (reverse-cons s stack) ∙ append_assoc (reverse stack) (s ∷ []) ss in
    ap reverse pushed ∙ resolve_all-slashed (s ∷ stack) ss t h.1 ∙ shown
