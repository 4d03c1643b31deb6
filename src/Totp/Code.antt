-- ===== src/Totp/Code.antt =====
-- Which one-time codes `verify_code` of server/src/user/auth/totp.rs accepts.
use authere.Base.{
  ℕ, ◌+◌, ◌/◌, ◌≤◌, ◌≡◌, subst, inl, inr, true, false, not, ◌||◌, Option, some, List, [], ◌∷◌, ◌==◌,
  leb, all, All, length, arith, Bool-cases,
}
use authere.Base.Text.{Text, is_ascii_digit}
use authere.Totp.{Crates, parse_digits, is_used, candidates, hotp, first_match, verify_code}

-- A step at most one away from the present one.
abbrev IsNear : ℕ → ℕ → Type 0
IsNear current step = (step ≤ current + 1) × (current ≤ step + 1)

candidates-IsNear : (current : ℕ) → All (IsNear current) (candidates current)
unfolding candidates
candidates-IsNear current = elim (Bool-cases (current == 0)) [
  | inl zero_step ↦ rw zero_step ((omega arith, omega arith), ((omega arith, omega arith), tt))
  | inr later ↦
      rw later (
        (ground arith, ground arith),
        ((omega arith, omega arith), ((omega arith, omega arith), tt)),
      )
]

module _ (crates : Crates) where
  open crates use {trim}

  first_match_sound :
      (P : ℕ → Type 0) (secret : Text) (code : ℕ) (last : Option ℕ) (steps : List ℕ) (step : ℕ)
      → All P steps
      → first_match crates secret code last steps ≡ some step
      → P step × (is_used step last ≡ false) × (hotp crates secret step ≡ code)
  unfolding first_match
  first_match_sound P secret code last [] step a h = cc
  first_match_sound P secret code last (s ∷ steps) step a h = elim (Bool-cases (is_used s last)) [
    | inl used ↦ first_match_sound P secret code last steps step a.1 (ground arith)
    | inr unused ↦ elim (Bool-cases (hotp crates secret s == code)) [
      | inr other ↦ first_match_sound P secret code last steps step a.1 (ground arith)
      | inl right ↦
          let here : s ≡ step = ground arith in
          subst (λ x. P x × (is_used x last ≡ false) × (hotp crates secret x ≡ code)) here
            (a.0, unused, ground arith)
    ]
  ]

  -- A one-time code that is accepted has six digits, is the HOTP value of a step at most one away
  -- from the present one, and that step is later than the last one used.
  verify_code_sound :
      (secret code_str : Text) (now : ℕ) (last : Option ℕ) (step : ℕ)
      → verify_code crates secret code_str now last ≡ some step
      → (length (trim code_str) ≡ 6)
        × (all is_ascii_digit (trim code_str) ≡ true)
        × IsNear (now / 30) step
        × (is_used step last ≡ false)
        × (hotp crates secret step ≡ parse_digits 0 (trim code_str))
  unfolding verify_code
  verify_code_sound secret code_str now last step h =
      elim (Bool-cases
        (not (length (trim code_str) == 6) || not (all is_ascii_digit (trim code_str)))) [
          | inl bad ↦ ground arith
          | inr good ↦ elim (Bool-cases (leb 1000000 (parse_digits 0 (trim code_str)))) [
            | inl big ↦ ground arith
            | inr small ↦
                let (near, unused, right) =
                  first_match_sound (IsNear (now / 30)) secret (parse_digits 0 (trim code_str)) last
                    (candidates (now / 30)) step (candidates-IsNear (now / 30)) (ground arith) in
                (ground arith, ground arith, near, unused, right)
          ]
        ]
