-- ===== src/Settings/Update.antt =====
-- `get_settings`, `update_settings`, `apply_ldap_input` and `regenerate_ldap_bind_password` of
-- server/src/handlers/admin.rs, for an administrator.
pub mod Kept
use authere.Base.{ℕ, Bool, true, false, Option, none, some, List, [], ◌∷◌, is_some, if◌then◌else◌}
use authere.Base.Text.{Text, codes}
use authere.Base.Errors.{AppError, input_error, internal_error, Result, ok, err, ◌>>=◌}
use authere.Http.{trim}
use authere.Ldap.Entry.{LdapPasswordMode, LdapConfig, service_account_dn}
use authere.Settings.{
  Settings, I64, ParseAddress, key_open_registration, key_session_expiry_seconds, key_ldap_enabled,
  key_ldap_base_dn, key_ldap_bind_address, key_ldap_service_password_hash, key_ldap_password_mode,
  set_setting, open_registration_enabled, session_expiry_seconds, to_string,
  validate_session_expiry_seconds, mode_as_str, load_ldap_config, validate_base_dn,
  validate_bind_address,
}

pub record LdapSettings : Type 0 where
  pub enabled : Bool
  pub base_dn : Text
  pub bind_address : Text
  pub service_account_dn : Text
  service_password_set : Bool
  pub password_mode : LdapPasswordMode

pub record LdapSettingsInput : Type 0 where
  pub enabled : Option Bool
  pub base_dn : Option Text
  pub bind_address : Option Text
  pub password_mode : Option LdapPasswordMode

pub record SettingsResponse : Type 0 where
  pub open_registration : Bool
  pub session_expiry_seconds : ℕ
  pub ldap : LdapSettings

pub record UpdateSettingsInput : Type 0 where
  pub open_registration : Option Bool
  pub session_expiry_seconds : Option I64
  pub ldap : Option LdapSettingsInput

abbrev pub bool_text : Bool → Text
bool_text true = codes "true"
bool_text false = codes "false"

-- `if let Some(…)`: a write where a value is given
abbrev pub when_given {ℓ} :
    {A : Type ℓ}
    → Option A
    → (A → Settings → Result Settings AppError)
    → Settings
    → Result Settings AppError
when_given none write rows = ok rows
when_given (some a) write rows = write a rows

-- a write without a check, and one with a check
abbrev pub plain {ℓ} : {A : Type ℓ} → Text → (A → Text) → A → Settings → Result Settings AppError
plain key show a rows = ok (set_setting key (show a) rows)

-- `to_ldap_settings`, with the address that was read
unfoldable pub to_ldap_settings : LdapConfig × Text → LdapSettings
to_ldap_settings read = record {
  enabled = read.0.enabled;
  base_dn = read.0.base_dn;
  bind_address = read.1;
  service_account_dn = service_account_dn read.0;
  service_password_set = is_some read.0.service_password_hash;
  password_mode = read.0.password_mode;
}

unfoldable pub write_expiry : I64 → Settings → Result Settings AppError
write_expiry expiry rows = elim (validate_session_expiry_seconds expiry) [
  | err e ↦ err (input_error (e ∷ []))
  | ok validated ↦ ok (set_setting key_session_expiry_seconds (to_string validated) rows)
]

unfoldable pub write_base_dn : Text → Settings → Result Settings AppError
write_base_dn base_dn rows = elim (validate_base_dn base_dn) [
  | err e ↦ err (input_error (e ∷ []))
  | ok _ ↦ ok (set_setting key_ldap_base_dn (trim base_dn) rows)
]

module _ (parse_address : ParseAddress) where
  unfoldable pub write_bind_address : Text → Settings → Result Settings AppError
  write_bind_address address rows = elim (validate_bind_address parse_address address) [
    | err e ↦ err (input_error (e ∷ []))
    | ok _ ↦ ok (set_setting key_ldap_bind_address (trim address) rows)
  ]

  -- `apply_ldap_input`
  unfoldable pub apply_ldap_input : LdapSettingsInput → Settings → Result Settings AppError
  apply_ldap_input input rows =
      when_given input.enabled (plain key_ldap_enabled bool_text) rows
      >>= when_given input.base_dn write_base_dn
      >>= when_given input.bind_address write_bind_address
      >>= when_given input.password_mode (plain key_ldap_password_mode mode_as_str)

  -- `get_settings`
  unfoldable pub get_settings : Settings → Result SettingsResponse AppError
  get_settings rows = elim (load_ldap_config parse_address rows) [
    | err e ↦ err e
    | ok read ↦ ok (record {
      open_registration = open_registration_enabled rows;
      session_expiry_seconds = session_expiry_seconds rows;
      ldap = to_ldap_settings read;
    })
  ]

  -- the writes of `update_settings`
  unfoldable pub write_settings : UpdateSettingsInput → Settings → Result Settings AppError
  write_settings input rows =
      when_given input.open_registration (plain key_open_registration bool_text) rows
      >>= when_given input.session_expiry_seconds write_expiry
      >>= when_given input.ldap apply_ldap_input

  -- `update_settings`; an error ends the transaction without a commit
  unfoldable pub update_settings :
      UpdateSettingsInput → Settings → Result SettingsResponse AppError × Settings
  update_settings input rows = elim (write_settings input rows) [
    | err e ↦ (err e, rows)
    | ok after ↦ elim (get_settings after) [
      | err e ↦ (err e, rows)
      | ok response ↦ (ok response, after)
    ]
  ]

-- `regenerate_ldap_bind_password`, given the password that was drawn and its hash
unfoldable regenerate_ldap_bind_password :
    Text → Option Text → Settings → Result Text AppError × Settings
regenerate_ldap_bind_password password none rows =
    (err (internal_error "Failed to hash password"), rows)
regenerate_ldap_bind_password password (some hash) rows =
    (ok password, set_setting key_ldap_service_password_hash hash rows)
