-- ===== src/Settings/Expiry.antt =====
-- The expiry of sessions (server/src/settings.rs).
use authere.Base.{
  ℕ, zero, suc, ◌∙◌, ap, sym, ◌+◌, ◌/◌, ◌%◌, ◌≤◌, ◌<◌, ◌≡◌, refl, arith, some, [], ◌∷◌, ltb, inl,
  inr, Bool-cases,
}
use authere.Base.Text.{Text}
use authere.Settings.{
  Settings, I64, nonneg, neg, digits_from, parse_digits, parse_i64, show_from, to_string, clamp,
  session_expiry_seconds,
}

clamp_bounds : (i : I64) → (300 ≤ clamp i) × (clamp i ≤ 31536000)
clamp_bounds (nonneg n) = (omega arith, omega arith)
clamp_bounds (neg n) = (omega arith, omega arith)

-- Whatever the table holds, the expiry of sessions is between five minutes and a year.
session_expiry_seconds_bounds :
    (rows : Settings)
    → (300 ≤ session_expiry_seconds rows) × (session_expiry_seconds rows ≤ 31536000)
unfolding session_expiry_seconds
session_expiry_seconds_bounds rows = clamp_bounds _

digits_from-show_from :
    (rounds n : ℕ) (rest : Text)
    → n < rounds
    → digits_from 0 (show_from rounds n rest) ≡ digits_from n rest
unfolding digits_from show_from
digits_from-show_from zero n rest h = ground arith
digits_from-show_from (suc rounds) n rest h = elim (Bool-cases (ltb n 10)) [
  | inl small ↦ rw (small) (ground arith)
  | inr large ↦
      let later = digits_from-show_from rounds (n / 10) ((48 + n % 10) ∷ rest) (ground arith) in
      rw (large) (later ∙ ground arith)
]

digits_from-nil : (n : ℕ) → digits_from n [] ≡ some n
unfolding digits_from
digits_from-nil n = refl

show_from-head :
    (rounds n : ℕ) (rest : Text)
    → n < rounds
    → (c : ℕ) × (s : Text) × (show_from rounds n rest ≡ c ∷ s) × (48 ≤ c)
unfolding show_from
show_from-head zero n rest h = ground arith
show_from-head (suc rounds) n rest h = elim (Bool-cases (ltb n 10)) [
  | inl small ↦ rw (small) (48 + n, rest, refl, omega arith)
  | inr large ↦ rw (large) (show_from-head rounds (n / 10) ((48 + n % 10) ∷ rest) (ground arith))
]

-- A number that an `i64` can hold reads as itself when it is printed and parsed.
pub parse_i64-to_string :
    (n : ℕ) → n ≤ 9223372036854775807 → parse_i64 (to_string n) ≡ some (nonneg n)
unfolding to_string parse_i64 parse_digits
parse_i64-to_string n h =
    let (c, s, shown, digit) = show_from-head (suc n) n [] (omega arith) in
    let read : digits_from 0 (c ∷ s) ≡ some n =
      ap (digits_from 0) (sym shown)
      ∙ digits_from-show_from (suc n) n [] (omega arith)
      ∙ digits_from-nil n in
    rw (shown) (ground (arith, read))
