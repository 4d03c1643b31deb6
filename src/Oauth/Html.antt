-- ===== src/Oauth/Html.antt =====
-- `html_escape` and the hidden fields of `build_logout_confirmation_html` of
-- server/src/handlers/oauth.rs.
use mathlib.Core.Path.{ap₂}
use mathlib.Core.List.{append_assoc}
use authere.Base.{
  sym, ℕ, ◌≡◌, refl, ◌∙◌, false, Option, none, some, [], ◌∷◌, ◌++◌, ◌==◌, arith, Bool-cases, inl,
  inr, if◌then◌else◌,
}
use authere.Base.Text.{Text, codes}

-- `s.replace(c, by)`, for a byte
unfoldable pub replace : ℕ → Text → Text → Text
replace c by [] = []
replace c by (x ∷ s) = let rest = replace c by s in if x == c then by ++ rest else x ∷ rest

-- `html_escape`
unfoldable pub html_escape : Text → Text
html_escape s = replace b'\'' (codes "&#39;") (
    replace b'"' (codes "&quot;")
      (replace b'>' (codes "&gt;") (replace b'<' (codes "&lt;") (replace b'&' (codes "&amp;") s))))

-- the field of one of the three values
unfoldable pub hidden_input : Text → Option Text → Text
hidden_input name none = []
hidden_input name (some value) =
    codes "<input type=\"hidden\" name=\""
    ++ name
    ++ codes "\" value=\""
    ++ html_escape value
    ++ codes "\">"

-- the fields of `build_logout_confirmation_html`
unfoldable pub confirmation_inputs : Option Text → Option Text → Option Text → Text
confirmation_inputs client_id post_logout_redirect_uri state =
    hidden_input (codes "client_id") client_id
    ++ hidden_input (codes "post_logout_redirect_uri") post_logout_redirect_uri
    ++ hidden_input (codes "state") state

-- What each byte is written as.
abbrev pub entity : ℕ → Text
entity c =
    if c == b'&'
    then codes "&amp;"
    else if c == b'<'
    then codes "&lt;"
    else if c == b'>'
    then codes "&gt;"
    else if c == b'"'
    then codes "&quot;"
    else if c == b'\''
    then codes "&#39;"
    else c ∷ []

abbrev pub escape_once : Text → Text
escape_once [] = []
escape_once (c ∷ s) = entity c ++ escape_once s

replace-append : (c : ℕ) (by a b : Text) → replace c by (a ++ b) ≡ replace c by a ++ replace c by b
unfolding replace
replace-append c by [] b = refl
replace-append c by (x ∷ a) b = elim (Bool-cases (x == c)) [
  | inl hit ↦
      rw (hit, replace-append c by a b) (sym (append_assoc by (replace c by a) (replace c by b)))
  | inr miss ↦ rw (miss, replace-append c by a b) refl
]

html_escape-append : (a b : Text) → html_escape (a ++ b) ≡ html_escape a ++ html_escape b
unfolding html_escape
html_escape-append a b =
    rw
      (
        html_escape,
        replace-append b'&' (codes "&amp;") a b,
        replace-append b'<' (codes "&lt;") _ _,
        replace-append b'>' (codes "&gt;") _ _,
        replace-append b'"' (codes "&quot;") _ _,
        replace-append b'\'' (codes "&#39;") _ _,
      )
      refl

-- A byte that is none of the five is kept.
html_escape-other :
    (c : ℕ)
    → (c == b'&') ≡ false
    → (c == b'<') ≡ false
    → (c == b'>') ≡ false
    → (c == b'"') ≡ false
    → (c == b'\'') ≡ false
    → html_escape (c ∷ []) ≡ c ∷ []
unfolding html_escape replace
html_escape-other c amp lt gt quot apos = rw (html_escape, amp, lt, gt, quot, apos) refl

html_escape-byte : (c : ℕ) → html_escape (c ∷ []) ≡ entity c
unfolding html_escape replace
html_escape-byte c = elim (Bool-cases (c == b'&')) [
  | inl amp ↦ let e : c ≡ b'&' = ground arith in rw e refl
  | inr amp ↦ elim (Bool-cases (c == b'<')) [
    | inl lt ↦ let e : c ≡ b'<' = ground arith in rw e refl
    | inr lt ↦ elim (Bool-cases (c == b'>')) [
      | inl gt ↦ let e : c ≡ b'>' = ground arith in rw e refl
      | inr gt ↦ elim (Bool-cases (c == b'"')) [
        | inl quot ↦ let e : c ≡ b'"' = ground arith in rw e refl
        | inr quot ↦ elim (Bool-cases (c == b'\'')) [
          | inl apos ↦ let e : c ≡ b'\'' = ground arith in rw e refl
          | inr apos ↦ rw (html_escape-other c amp lt gt quot apos, amp, lt, gt, quot, apos) refl
        ]
      ]
    ]
  ]
]

-- Escaping by five replacements in a row is escaping every byte once, by itself.
pub html_escape-eq-once : (s : Text) → html_escape s ≡ escape_once s
unfolding html_escape replace
html_escape-eq-once [] = refl
html_escape-eq-once (c ∷ s) =
    html_escape-append (c ∷ []) s ∙ ap₂ ◌++◌ (html_escape-byte c) (html_escape-eq-once s)
