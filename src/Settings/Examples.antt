-- ===== src/Settings/Examples.antt =====
-- Settings that are written and read, and a base DN that no bind can use.
use authere.Base.{◌≡◌, refl, true, none, some, [], ◌∷◌, arith}
use authere.Base.Text.{Text, codes, same, to_ascii_lowercase, eq_ignore_ascii_case}
use authere.Base.Rows.{find, delete_where, count_where}
use authere.Base.Errors.{input_error, ok, err}
use authere.Http.{
  white_len, trim_start_from, is_white, trim_end, trim, split_from, split, split_once_from,
  split_once,
}
use authere.RateLimit
use authere.RateLimit.{Config, entry_or_new, reset_expired, admit}
use authere.User.Password.{Argon}
use authere.Oauth.Sample
use authere.Ldap.Dn.{zip_all, equals, split_rdn, parse_from, parse_dn}
use authere.Ldap.Entry.{primary_and_app, app_only, LdapConfig}
use authere.Ldap.Search.{anonymous}
use authere.Ldap.Bind.{Bound, panicked, bind_admitted, handle_bind}
use authere.Settings.{
  nonneg, neg, get_setting, set_setting, open_registration_enabled, digits_from, parse_digits,
  parse_i64, show_from, to_string, session_expiry_seconds, validate_session_expiry_seconds,
  mode_as_str, mode_from_str, load_ldap_config, validate_rdn, validate_rdns, validate_base_dn,
  validate_bind_address,
}
use authere.Settings.Table.{IsKeyed, Writes, run, replay, run_refines}
use authere.Settings.Update.{
  UpdateSettingsInput, to_ldap_settings, write_expiry, write_base_dn, write_bind_address,
  apply_ldap_input, get_settings, write_settings, update_settings,
}
use authere.Settings.Update.Kept.{IsUpdated, update_settings-IsUpdated}

settings : Unit {0}
unfolding same to_ascii_lowercase eq_ignore_ascii_case find delete_where count_where white_len
    trim_start_from is_white trim_end trim split_from split split_once_from split_once
    RateLimit.check entry_or_new reset_expired admit zip_all equals split_rdn parse_from parse_dn
    bind_admitted handle_bind get_setting set_setting open_registration_enabled digits_from
    parse_digits parse_i64 show_from to_string session_expiry_seconds
    validate_session_expiry_seconds mode_as_str mode_from_str load_ldap_config validate_rdn
    validate_rdns validate_base_dn validate_bind_address run replay to_ldap_settings write_expiry
    write_base_dn write_bind_address apply_ldap_input get_settings write_settings update_settings
settings = tt

abbrev expiry_input : UpdateSettingsInput
expiry_input = record {
  open_registration = some true;
  session_expiry_seconds = some (nonneg 3600);
  ldap = none;
}

setting_tests :
    (parse_i64 (codes "-12") ≡ some (neg 12))
    × (parse_i64 (codes "+12") ≡ some (nonneg 12))
    × (parse_i64 (codes "9223372036854775808") ≡ none)
    × (parse_i64 (codes "-") ≡ none)
    × (session_expiry_seconds [] ≡ 604800)
    × (session_expiry_seconds (set_setting (codes "session_expiry_seconds") (codes "12") []) ≡ 300)
    × (session_expiry_seconds (update_settings some expiry_input []).1 ≡ 3600)
    × (open_registration_enabled (update_settings some expiry_input []).1 ≡ true)
    × (update_settings some (record expiry_input { session_expiry_seconds = some (nonneg 12) }) []
        ≡ (err (input_error ("Session expiry must be at least" ∷ [])), []))
    × (mode_from_str (codes "app_only") ≡ some app_only)
    × (validate_base_dn (codes "dc=x,dc") ≡ err "Base DN component is missing an '=' separator")
unfolding settings
setting_tests = (refl, refl, refl, refl, refl, refl, refl, refl, refl, refl, refl)

-- a base DN that ends in an escape
abbrev escaped : Text
escaped = codes "dc=\\"

abbrev argon : Argon
argon = record {
  hash_password = λ salt cleartext. some cleartext;
  verify = λ hash cleartext. same hash cleartext;
}

abbrev cfg : LdapConfig
cfg = record {
  enabled = true;
  base_dn = escaped;
  service_password_hash = none;
  password_mode = primary_and_app;
}

abbrev limits : Config
limits = record { max_requests = 5; window = 60 }

abbrev bound : Bound
bound =
    (handle_bind argon limits 1 1 (record { dn = codes "uid=ada,ou=people,dc=x"; pw = codes "p" })
      cfg 9 (λ ip. none) Sample.db []).0

-- The check accepts this base DN, and a bind with it panics.
escaped_tests : (validate_base_dn escaped ≡ ok tt) × (bound ≡ (panicked, anonymous))
unfolding settings
escaped_tests = (refl, refl)

abbrev writes : Writes
writes = (codes "a", codes "1") ∷ (codes "b", codes "2") ∷ (codes "a", codes "3") ∷ []

no_rows-IsKeyed : IsKeyed []
unfolding settings
no_rows-IsKeyed k = omega arith

run_refines_example :
    IsKeyed (run writes [])
    × ((k : Text) → get_setting k (run writes []) ≡ replay writes (λ j. get_setting j []) k)
run_refines_example = run_refines writes [] no_rows-IsKeyed

update_settings-IsUpdated_example :
    IsUpdated some expiry_input [] (update_settings some expiry_input [])
update_settings-IsUpdated_example = update_settings-IsUpdated some expiry_input []
