-- ===== src/Base/Text.antt =====
-- Texts as lists of bytes, with the comparisons of Rust's `str` that the program uses.
use Prim.Native.Nat.{ℕ, ◌+◌}
use Prim.Native.Char.{code}
use Prim.Native.String.{String}
use mathlib.Core.Path.{◌≡◌, refl, ap₂}
use mathlib.Core.Logic.{◌↔◌}
use mathlib.Core.Bool.{Bool, true, false, ◌&&◌, ◌||◌}
use mathlib.Core.List.{List, [], ◌∷◌, ◌++◌, map}
use native.Mathlib.Omega.{arith}
use authere.Base.Tests.{leb, ◌==◌, if◌then◌else◌}
use authere.Base.Lists.{any}

-- A UTF-8 text: its bytes.
abbrev pub Text : Type 0
Text = List ℕ

-- The bytes of an ASCII literal.
abbrev pub codes : String → Text
codes String.[] = []
codes (String.◌∷◌ c s) = code c ∷ codes s

-- `a == b` on `str`.
unfoldable pub same : Text → Text → Bool
same [] [] = true
same (x ∷ xs) (y ∷ ys) = x == y && same xs ys
same _ _ = false

same_sound : (a b : Text) → same a b ≡ true → a ≡ b
unfolding same
same_sound [] [] h = refl
same_sound (x ∷ xs) (y ∷ ys) h = ground (arith, same_sound xs ys)
same_sound _ _ h = cc

pub same_refl : (a : Text) → same a a ≡ true
unfolding same
same_refl [] = refl
same_refl (x ∷ xs) = ground (arith, same_refl xs)

pub same_iff : (a b : Text) → (same a b ≡ true) ↔ (a ≡ b)
same_iff a b = (same_sound a b, λ e. rw e (same_refl b))

-- `to_ascii_lowercase` on a byte.
abbrev lower_byte : ℕ → ℕ
lower_byte c = if leb b'A' c && leb c b'Z' then c + 32 else c

unfoldable pub to_ascii_lowercase : Text → Text
to_ascii_lowercase = map lower_byte

-- `a.eq_ignore_ascii_case(b)`.
unfoldable pub eq_ignore_ascii_case : Text → Text → Bool
eq_ignore_ascii_case [] [] = true
eq_ignore_ascii_case (x ∷ xs) (y ∷ ys) = lower_byte x == lower_byte y && eq_ignore_ascii_case xs ys
eq_ignore_ascii_case _ _ = false

-- Ignoring case is equality of the lowercased texts.
eq_ignore_ascii_case_lem :
    (a b : Text) → eq_ignore_ascii_case a b ≡ same (to_ascii_lowercase a) (to_ascii_lowercase b)
unfolding eq_ignore_ascii_case same to_ascii_lowercase
eq_ignore_ascii_case_lem [] [] = refl
eq_ignore_ascii_case_lem [] (y ∷ ys) = refl
eq_ignore_ascii_case_lem (x ∷ xs) [] = refl
eq_ignore_ascii_case_lem (x ∷ xs) (y ∷ ys) =
    ap₂ ◌&&◌ (refl {a = lower_byte x == lower_byte y}) (eq_ignore_ascii_case_lem xs ys)

pub eq_ignore_ascii_case_iff :
    (a b : Text) → (eq_ignore_ascii_case a b ≡ true) ↔ (to_ascii_lowercase a ≡ to_ascii_lowercase b)
eq_ignore_ascii_case_iff a b = rw (eq_ignore_ascii_case_lem a b) (same_iff _ _)

-- `s.starts_with(prefix)`.
unfoldable pub starts_with : Text → Text → Bool
starts_with s [] = true
starts_with [] (p ∷ ps) = false
starts_with (c ∷ s) (p ∷ ps) = c == p && starts_with s ps

-- A text starts with a prefix exactly when the prefix and some rest make it up.
starts_with_split : (s p : Text) → starts_with s p ≡ true → (rest : Text) × (s ≡ p ++ rest)
unfolding starts_with
starts_with_split s [] h = (s, refl)
starts_with_split [] (p ∷ ps) h = cc
starts_with_split (c ∷ s) (p ∷ ps) h =
    let (rest, e) = starts_with_split s ps (ground arith) in
    let same_head : c ≡ p = ground arith in (rest, cc)

starts_with-append : (p rest : Text) → starts_with (p ++ rest) p ≡ true
unfolding starts_with
starts_with-append [] rest = refl
starts_with-append (p ∷ ps) rest = ground (arith, starts_with-append ps rest)

pub starts_with_iff : (s p : Text) → (starts_with s p ≡ true) ↔ ((rest : Text) × (s ≡ p ++ rest))
starts_with_iff s p = (starts_with_split s p, λ h. rw h.1 (starts_with-append p h.0))

-- `contains` on a list of texts.
abbrev pub contains : List Text → Text → Bool
contains xs t = any (λ x. same x t) xs

abbrev pub is_ascii_digit : ℕ → Bool
is_ascii_digit b = leb b'0' b && leb b b'9'

abbrev pub is_ascii_alphanumeric : ℕ → Bool
is_ascii_alphanumeric b = is_ascii_digit b || leb b'A' b && leb b b'Z' || leb b'a' b && leb b b'z'

abbrev pub is_ascii_hexdigit : ℕ → Bool
is_ascii_hexdigit b = is_ascii_digit b || leb b'A' b && leb b b'F' || leb b'a' b && leb b b'f'

-- Control bytes: below 32, and 127.
abbrev pub is_ascii_control : ℕ → Bool
is_ascii_control b = leb b 31 || b == 127
