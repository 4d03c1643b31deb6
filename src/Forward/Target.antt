-- ===== src/Forward/Target.antt =====
-- server/src/handlers/auth.rs: `ForwardTarget`, the one reading of where a request wants to go. The
-- url crate is a parameter: what it reads from a text, and whether two origins are the same.
use authere.Base.{
  ℕ, Bool, false, not, ◌||◌, Option, none, some, [], ◌∷◌, ◌++◌, any, is_empty, ◌==◌, if◌then◌else◌,
  is_some, unwrap_or, drop,
}
use authere.Base.Text.{Text, codes, same, starts_with, is_ascii_control}
use authere.Base.Errors.{AppError, input_error, forbidden, Result, ok, err, ◌>>=◌}
use authere.Http.{Headers, ToStr}
use authere.Forward.Path.{safe_local_path, normalize_policy_path}

-- What the program reads of a `url::Url`: `authority` is the text from the host to the port, `local`
-- the text from the path on, `origin` the serialized origin.
pub record Url : Type 0 where
  pub text : Text
  pub scheme : Text
  pub host : Option Text
  pub username : Text
  pub password : Option Text
  pub fragment : Option Text
  pub authority : Text
  pub path : Text
  pub local : Text
  pub origin : Text

-- the parameters
pub record Urls : Type 0 where
  pub parse_url : Text → Option Url
  pub same_origin : Url → Url → Bool
  pub urldecode : Text → Option Text
  pub urlencode : Text → Text

-- `ForwardTarget`
pub record Target : Type 0 where
  pub url : Url
  pub host : Text
  pub policy_path : Text

abbrev is_target_byte : ℕ → Bool
is_target_byte b = is_ascii_control b || b == b' ' || b == b'\\'

-- the text before the next `://`
unfoldable pub until_separator : Text → Text
until_separator [] = []
until_separator (c ∷ s) =
    let rest = until_separator s in if starts_with (c ∷ s) (codes "://") then [] else c ∷ rest

-- `input.split("://").nth(1)`
unfoldable pub after_separator : Text → Option Text
after_separator [] = none
after_separator (c ∷ s) =
    let later = after_separator s in
    if starts_with (c ∷ s) (codes "://") then some (until_separator (drop 3 (c ∷ s))) else later

abbrev ends_authority : ℕ → Bool
ends_authority c = c == b'/' || c == b'?' || c == b'#'

-- `s.split(['/', '?', '#']).next()`
unfoldable pub authority_part : Text → Text
authority_part [] = []
authority_part (c ∷ s) = let rest = authority_part s in if ends_authority c then [] else c ∷ rest

unfoldable pub names_user : Text → Bool
names_user input = elim (after_separator input) [
  | none ↦ false
  | some s ↦ any (λ c. c == b'@') (authority_part s)
]

unfoldable pub is_bad_url : Text → Url → Bool
is_bad_url input url =
    not (same url.scheme (codes "https"))
    || not (is_some url.host)
    || not (is_empty url.username)
    || is_some url.password
    || is_some url.fragment
    || names_user input

abbrev invalid_target : AppError
invalid_target = input_error ("Invalid HTTPS forward-auth target" ∷ [])

abbrev is_host_stop : ℕ → Bool
is_host_stop c = c == b',' || c == b'/' || c == b'?' || c == b'#' || c == b'@'

-- `single_header`
unfoldable pub single_header : ToStr → Headers → Text → Option Text
single_header to_str headers name = elim (headers name) [
  | [] ↦ none
  | value ∷ others ↦ elim (to_str value) [
    | none ↦ none
    | some text ↦ if is_empty others then some text else none
  ]
]

module _ (urls : Urls) where
  open urls use {parse_url, same_origin, urldecode, urlencode}

  -- `ForwardTarget::parse`
  unfoldable pub parse : Text → Result Target AppError
  parse input = if any is_target_byte input then err invalid_target else elim (parse_url input) [
    | none ↦ err invalid_target
    | some url ↦
        if is_bad_url input url
        then err invalid_target
        else normalize_policy_path urldecode url.path
          >>= (λ path. ok (record { url = url; host = url.authority; policy_path = path }))
  ]

  -- `ensure_protected_origin`
  unfoldable pub ensure_protected_origin : Text → Target → Result (Unit {0}) AppError
  ensure_protected_origin auth_origin target = elim (parse_url auth_origin) [
    | none ↦ ok tt
    | some auth ↦ if same_origin auth target.url then err forbidden else ok tt
  ]

  -- `start_url`
  unfoldable pub start_url : Target → Text
  start_url target =
      target.url.origin ++ codes "/.authere/start?redirect_uri=" ++ urlencode target.url.local

  module _ (to_str : ToStr) where
    -- `from_proxy`
    unfoldable pub from_proxy : Headers → Result Target AppError
    from_proxy headers = elim (single_header to_str headers (codes "x-forwarded-host")) [
      | none ↦ err (input_error ("Missing forwarded host" ∷ []))
      | some host ↦
          let proto =
            unwrap_or (single_header to_str headers (codes "x-forwarded-proto")) (codes "https") in
          elim (single_header to_str headers (codes "x-forwarded-uri")) [
            | none ↦ err (input_error ("Missing forwarded URI" ∷ []))
            | some path ↦
                if not (safe_local_path path) || any is_host_stop host
                then err (input_error ("Invalid forward-auth request metadata" ∷ []))
                else parse (proto ++ codes "://" ++ host ++ path)
          ]
    ]

    abbrev host_header : Headers → Text
    host_header headers =
        if is_empty (headers (codes "x-authere-target-host"))
        then codes "host"
        else codes "x-authere-target-host"

    -- `from_callback`
    unfoldable pub from_callback : Headers → Text → Result Target AppError
    from_callback headers path = elim (single_header to_str headers (host_header headers)) [
      | none ↦ err (input_error ("Missing target host" ∷ []))
      | some host ↦
          if not (safe_local_path path) || any is_host_stop host
          then err (input_error ("Invalid forward-auth target" ∷ []))
          else parse (codes "https://" ++ host ++ path)
    ]
