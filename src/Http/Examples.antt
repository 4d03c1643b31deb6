-- ===== src/Http/Examples.antt =====
-- Cookie headers and scopes as they are sent.
use authere.Base.{◌≡◌, refl, none, some, [], ◌∷◌, if◌then◌else◌}
use authere.Base.Text.{codes, same}
use authere.Http.{
  Headers, white_len, words_from, split_whitespace, trim_start_from, is_white, trim_end, trim,
  split_from, split, split_once_from, split_once, cookie_pair, cookie_values, extract_cookie,
}

abbrev sent : Headers
sent name = if same name (codes "cookie") then codes "a=1; b=x=y " ∷ codes "c=3;a=4" ∷ [] else []

http_tests :
    (split_whitespace (codes "  openid email ") ≡ codes "openid" ∷ codes "email" ∷ [])
    × (extract_cookie some sent (codes "b") ≡ some (codes "x=y"))
    × (extract_cookie some sent (codes "a") ≡ none)
    × (extract_cookie some sent (codes "z") ≡ none)
unfolding white_len words_from split_whitespace trim_start_from is_white trim_end trim split_from
    split split_once_from split_once cookie_pair cookie_values extract_cookie same
http_tests = (refl, refl, refl, refl)
