-- ===== src/Http.antt =====
-- Headers, cookies and words, as the handlers (server/src/handlers/oauth.rs, auth.rs) read them. The
-- values of a header are a function of its name in lower case; `to_str` of the http crate is a
-- parameter.
mod Examples
use authere.Base.{
  ℕ, zero, suc, ◌-◌, Bool, true, false, not, ◌&&◌, ◌||◌, Option, none, some, List, [], ◌∷◌, ◌++◌,
  reverse, ◌==◌, leb, if◌then◌else◌, is_empty,
}
use authere.Base.Text.{Text, codes, same}

-- The values of a header, in their order.
abbrev pub Headers : Type 0
Headers = Text → List Text

-- `HeaderValue::to_str`
abbrev pub ToStr : Type 0
ToStr = Text → Option Text

abbrev pub auth_cookie_name : Text
auth_cookie_name = codes "__Host-authere_token"

abbrev pub refresh_cookie_name : Text
refresh_cookie_name = codes "__Host-authere_refresh"

abbrev pub first {ℓ} : {A : Type ℓ} → List A → Option A
first [] = none
first (x ∷ xs) = some x

-- `headers.get(name)`
abbrev pub get_header : Text → Headers → Option Text
get_header name headers = first (headers name)

-- the last byte of U+2000 to U+200A, U+2028, U+2029 and U+202F
abbrev is_space_2000 : ℕ → Bool
is_space_2000 c = leb 128 c && leb c 138 || c == 168 || c == 169 || c == 175

-- the bytes of the white space character that a text starts with (`char::is_whitespace`), or 0
unfoldable pub white_len : Text → ℕ
white_len (a ∷ b ∷ c ∷ s) =
    if leb 9 a && leb a 13 || a == 32
    then 1
    else if a == 194 && (b == 133 || b == 160)
    then 2
    else if a == 225 && b == 154 && c == 128
        || a == 226 && b == 128 && is_space_2000 c
        || a == 226 && b == 129 && c == 159
        || a == 227 && b == 128 && c == 128
    then 3
    else 0
white_len (a ∷ b ∷ []) =
    if leb 9 a && leb a 13 || a == 32
    then 1
    else if a == 194 && (b == 133 || b == 160)
    then 2
    else 0
white_len (a ∷ []) = if leb 9 a && leb a 13 || a == 32 then 1 else 0
white_len [] = 0

abbrev flush : Text → List Text → List Text
flush [] words = words
flush (c ∷ cs) words = reverse (c ∷ cs) ∷ words

-- The words from here on: `skip` bytes belong to a white space character, `word` is what has been
-- read of a word, in reverse.
unfoldable pub words_from : ℕ → Text → Text → List Text
words_from skip word [] = flush word []
words_from (suc skip) word (c ∷ s) = words_from skip word s
words_from zero word (c ∷ s) =
    let white = white_len (c ∷ s) in
    elim (white == 0) [
      | true ↦ words_from zero (c ∷ word) s
      | false ↦ flush word (words_from (white - 1) [] s)
    ]

-- `s.split_whitespace()`
unfoldable pub split_whitespace : Text → List Text
split_whitespace = words_from zero []

unfoldable pub trim_start_from : ℕ → Text → Text
trim_start_from skip [] = []
trim_start_from (suc skip) (c ∷ s) = trim_start_from skip s
trim_start_from zero (c ∷ s) =
    let white = white_len (c ∷ s) in
    let rest = trim_start_from (white - 1) s in if white == 0 then c ∷ s else rest

-- whether nothing but white space follows
unfoldable pub is_white : ℕ → Text → Bool
is_white skip [] = true
is_white (suc skip) (c ∷ s) = is_white skip s
is_white zero (c ∷ s) =
    let white = white_len (c ∷ s) in
    let rest = is_white (white - 1) s in if white == 0 then false else rest

unfoldable pub trim_end : Text → Text
trim_end [] = []
trim_end (c ∷ s) = let rest = trim_end s in if is_white zero (c ∷ s) then [] else c ∷ rest

-- `s.trim()`
unfoldable pub trim : Text → Text
trim s = trim_end (trim_start_from zero s)

unfoldable pub split_from : ℕ → Text → Text → List Text
split_from sep part [] = reverse part ∷ []
split_from sep part (c ∷ s) = elim (c == sep) [
  | true ↦ reverse part ∷ split_from sep [] s
  | false ↦ split_from sep (c ∷ part) s
]

-- `s.split(sep)`, for an ASCII separator
unfoldable pub split : ℕ → Text → List Text
split sep = split_from sep []

unfoldable pub split_once_from : ℕ → Text → Text → Option (Text × Text)
split_once_from sep before [] = none
split_once_from sep before (c ∷ s) =
    let later = split_once_from sep (c ∷ before) s in
    if c == sep then some (reverse before, s) else later

-- `s.split_once(sep)`
unfoldable pub split_once : ℕ → Text → Option (Text × Text)
split_once sep = split_once_from sep []

-- `filter_map`
abbrev pub filter_map {ℓ κ} : {A : Type ℓ} {B : Type κ} → (A → Option B) → List A → List B
filter_map f [] = []
filter_map f (x ∷ xs) = elim (f x) [ none ↦ filter_map f xs | some y ↦ y ∷ filter_map f xs ]

abbrev pub flat_map {ℓ κ} : {A : Type ℓ} {B : Type κ} → (A → List B) → List A → List B
flat_map f [] = []
flat_map f (x ∷ xs) = f x ++ flat_map f xs

-- the value of a `name=value` pair of the name
unfoldable pub cookie_pair : Text → Text → Option Text
cookie_pair name pair = elim (split_once b'=' (trim pair)) [
  | none ↦ none
  | some (key, value) ↦ if same key name then some value else none
]

abbrev pub only {ℓ} : {A : Type ℓ} → List A → Option A
only [] = none
only (x ∷ []) = some x
only (x ∷ y ∷ rest) = none

module _ (to_str : ToStr) where
  unfoldable pub cookie_values : Headers → Text → List Text
  cookie_values headers name =
      filter_map (cookie_pair name)
        (flat_map (split b';') (filter_map to_str (headers (codes "cookie"))))

  -- `extract_cookie`
  unfoldable pub extract_cookie : Headers → Text → Option Text
  extract_cookie headers name = only (cookie_values headers name)
