-- ===== src/Settings.antt =====
-- server/src/settings.rs: the table of settings, what is read from it, and the checks of what is
-- written to it. The text of a socket address is a parameter: what it reads as, printed again.
pub mod Table
pub mod Expiry
pub mod Update
mod Examples
use authere.Base.{
  ℕ, zero, suc, ◌+◌, ◌-◌, ◌*◌, ◌/◌, ◌%◌, ◌≤◌, min, max, Bool, true, false, not, ◌&&◌, ◌||◌, Option,
  none, some, String, List, [], ◌∷◌, length, is_empty, is_some, ltb, leb, ◌==◌, unwrap_or,
  if◌then◌else◌,
}
use authere.Base.Text.{Text, codes, same, is_ascii_digit}
use authere.Base.Rows.{find, delete_where}
use authere.Base.Errors.{AppError, internal_error, Result, ok, err}
use authere.Http.{trim, split, split_once}
use authere.Ldap.Entry.{LdapPasswordMode, primary_and_app, app_only, primary_only, LdapConfig}

-- a row of `settings`
pub record Setting : Type 0 where
  pub key : Text
  pub value : Text

abbrev pub Settings : Type 0
Settings = List Setting

abbrev pub key_open_registration : Text
key_open_registration = codes "open_registration"

abbrev pub key_session_expiry_seconds : Text
key_session_expiry_seconds = codes "session_expiry_seconds"

abbrev pub key_ldap_enabled : Text
key_ldap_enabled = codes "ldap_enabled"

abbrev pub key_ldap_base_dn : Text
key_ldap_base_dn = codes "ldap_base_dn"

abbrev pub key_ldap_bind_address : Text
key_ldap_bind_address = codes "ldap_bind_address"

abbrev pub key_ldap_service_password_hash : Text
key_ldap_service_password_hash = codes "ldap_service_password_hash"

abbrev pub key_ldap_password_mode : Text
key_ldap_password_mode = codes "ldap_password_mode"

abbrev pub default_session_expiry_seconds : ℕ
default_session_expiry_seconds = 604800

abbrev min_session_expiry_seconds : ℕ
min_session_expiry_seconds = 300

abbrev max_session_expiry_seconds : ℕ
max_session_expiry_seconds = 31536000

abbrev pub has_key : Text → Setting → Bool
has_key key row = same row.key key

-- `get_setting`
unfoldable pub get_setting : Text → Settings → Option Text
get_setting key rows = elim (find (has_key key) rows) [ none ↦ none | some row ↦ some row.value ]

-- `set_setting`: `INSERT OR REPLACE`
unfoldable pub set_setting : Text → Text → Settings → Settings
set_setting key value rows = record { key = key; value = value } ∷ delete_where (has_key key) rows

abbrev pub is_true : Option Text → Bool
is_true none = false
is_true (some value) = same value (codes "true")

-- `open_registration_enabled`
unfoldable pub open_registration_enabled : Settings → Bool
open_registration_enabled rows = is_true (get_setting key_open_registration rows)

-- an `i64`: a number, or minus a number
pub data I64 : Type 0 where
  nonneg : ℕ → I64
  neg : ℕ → I64

unfoldable pub digits_from : ℕ → Text → Option ℕ
digits_from n [] = some n
digits_from n (c ∷ s) =
    let rest = digits_from (n * 10 + (c - 48)) s in if is_ascii_digit c then rest else none

unfoldable pub parse_digits : Text → Option ℕ
parse_digits [] = none
parse_digits (c ∷ s) = digits_from 0 (c ∷ s)

-- the number of a sign's digits, where it fits
abbrev up_to : ℕ → (ℕ → I64) → Option ℕ → Option I64
up_to limit signed none = none
up_to limit signed (some n) = if leb n limit then some (signed n) else none

-- `s.parse::<i64>()`
unfoldable pub parse_i64 : Text → Option I64
parse_i64 [] = none
parse_i64 (c ∷ s) =
    if c == b'-'
    then up_to 9223372036854775808 neg (parse_digits s)
    else if c == b'+'
    then up_to 9223372036854775807 nonneg (parse_digits s)
    else up_to 9223372036854775807 nonneg (parse_digits (c ∷ s))

-- the digits of `n` before `rest`; as many rounds as `n` and one are enough
unfoldable pub show_from : ℕ → ℕ → Text → Text
show_from zero n rest = rest
show_from (suc rounds) n rest =
    let longer = show_from rounds (n / 10) ((48 + n % 10) ∷ rest) in
    if ltb n 10 then (48 + n) ∷ rest else longer

-- `value.to_string()`
unfoldable pub to_string : ℕ → Text
to_string n = show_from (suc n) n []

-- `clamp`
abbrev pub clamp : I64 → ℕ
clamp (neg n) = min_session_expiry_seconds
clamp (nonneg n) = min (max n min_session_expiry_seconds) max_session_expiry_seconds

abbrev pub parse_setting : Option Text → Option I64
parse_setting none = none
parse_setting (some raw) = parse_i64 raw

-- `session_expiry_seconds`
unfoldable pub session_expiry_seconds : Settings → ℕ
session_expiry_seconds rows = clamp (
    unwrap_or (parse_setting (get_setting key_session_expiry_seconds rows))
      (nonneg default_session_expiry_seconds))

-- `validate_session_expiry_seconds`
unfoldable pub validate_session_expiry_seconds : I64 → Result ℕ String
validate_session_expiry_seconds (neg n) = err "Session expiry must be at least"
validate_session_expiry_seconds (nonneg n) =
    if ltb n min_session_expiry_seconds
    then err "Session expiry must be at least"
    else if ltb max_session_expiry_seconds n
    then err "Session expiry must be at most"
    else ok n

-- `as_str`, `from_str` of a password mode
unfoldable pub mode_as_str : LdapPasswordMode → Text
mode_as_str primary_and_app = codes "primary_and_app"
mode_as_str app_only = codes "app_only"
mode_as_str primary_only = codes "primary_only"

unfoldable pub mode_from_str : Text → Option LdapPasswordMode
mode_from_str s =
    if same s (codes "primary_and_app")
    then some primary_and_app
    else if same s (codes "app_only")
    then some app_only
    else if same s (codes "primary_only")
    then some primary_only
    else none

-- `filter(|s| !s.is_empty())`
abbrev pub nonempty : Option Text → Option Text
nonempty none = none
nonempty (some s) = if is_empty s then none else some s

abbrev read_mode : Option Text → Option LdapPasswordMode
read_mode none = none
read_mode (some s) = mode_from_str s

-- `SocketAddr::from_str`, printed
abbrev pub ParseAddress : Type 0
ParseAddress = Text → Option Text

-- `load_ldap_config`, with the address beside it
unfoldable pub load_ldap_config : ParseAddress → Settings → Result (LdapConfig × Text) AppError
load_ldap_config parse_address rows =
    elim (parse_address
      (unwrap_or (nonempty (get_setting key_ldap_bind_address rows)) (codes "0.0.0.0:3389"))) [
        | none ↦ err (internal_error "invalid ldap_bind_address")
        | some address ↦ ok (
          record {
            enabled = is_true (get_setting key_ldap_enabled rows);
            base_dn =
                unwrap_or (nonempty (get_setting key_ldap_base_dn rows))
                  (codes "dc=authere,dc=local");
            service_password_hash = nonempty (get_setting key_ldap_service_password_hash rows);
            password_mode =
                unwrap_or (read_mode (get_setting key_ldap_password_mode rows)) primary_and_app;
          },
          address,
        )
      ]

-- the check of a component of a base DN
unfoldable pub validate_rdn : Text → Result (Unit {0}) String
validate_rdn rdn =
    if is_empty rdn then err "Base DN contains an empty component" else elim (split_once b'=' rdn) [
      | none ↦ err "Base DN component is missing an '=' separator"
      | some (attr, value) ↦
          if is_empty (trim attr) || is_empty (trim value)
          then err "Base DN component has an empty attribute or value"
          else ok tt
    ]

unfoldable pub validate_rdns : List Text → Result (Unit {0}) String
validate_rdns [] = ok tt
validate_rdns (rdn ∷ rdns) = elim (validate_rdn (trim rdn)) [
  | err e ↦ err e
  | ok _ ↦ validate_rdns rdns
]

-- `validate_base_dn`
unfoldable pub validate_base_dn : Text → Result (Unit {0}) String
validate_base_dn dn =
    if is_empty (trim dn)
    then err "Base DN cannot be empty"
    else if ltb 512 (length (trim dn))
    then err "Base DN is too long"
    else validate_rdns (split b',' (trim dn))

-- `validate_bind_address`
unfoldable pub validate_bind_address : ParseAddress → Text → Result Text String
validate_bind_address parse_address address = elim (parse_address address) [
  | none ↦ err "Invalid bind address"
  | some read ↦ ok read
]
