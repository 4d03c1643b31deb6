-- ===== src/Ldap/Bind/Examples.antt =====
-- Binds of the service account and of user 7.
use authere.Base.{◌≡◌, refl, true, none, some, List, [], ◌∷◌}
use authere.Base.Text.{Text, codes, same, to_ascii_lowercase, eq_ignore_ascii_case}
use authere.Base.Rows.{find, update_where, count_where}
use authere.Http.{white_len, trim_start_from, is_white, trim_end, trim, split_once_from, split_once}
use authere.RateLimit
use authere.RateLimit.{Config, entry_or_new, reset_expired, admit}
use authere.User.{get_by_username}
use authere.User.Password.{password, Argon, get_password_for, verify_password, try_password_login}
use authere.User.AppPassword.{AppPassword, verify_for_user}
use authere.Totp.Table.{is_activated_for}
use authere.State.{Db}
use authere.Oauth.Sample
use authere.Ldap.Dn.{zip_all, equals, is_under, depth_under, split_rdn, parse_from, parse_dn}
use authere.Ldap.Entry.{
  LdapPasswordMode, primary_and_app, app_only, primary_only, LdapConfig, app_passwords_enabled,
}
use authere.Ldap.Search.{service, user}
use authere.Ldap.Bind.{
  Bound, succeeded, failed, read_username, try_primary, try_app_password, primary_alone, try_mode,
  handle_user_bind, handle_service_bind, bind_below, bind_admitted, handle_bind,
}
use authere.Ldap.Bind.Authenticated.{IsBound, handle_bind-IsBound}

binds : Unit {0}
unfolding white_len trim_start_from is_white trim_end trim split_once_from split_once same find
    update_where count_where to_ascii_lowercase eq_ignore_ascii_case RateLimit.check entry_or_new
    reset_expired admit get_by_username get_password_for verify_password try_password_login
    verify_for_user is_activated_for zip_all equals is_under depth_under split_rdn parse_from
    parse_dn app_passwords_enabled read_username try_primary try_app_password primary_alone try_mode
    handle_user_bind handle_service_bind bind_below bind_admitted handle_bind
binds = tt

-- a hash that is its text
abbrev argon : Argon
argon = record {
  hash_password = λ salt cleartext. some cleartext;
  verify = λ hash cleartext. same hash cleartext;
}

abbrev limits : Config
limits = record { max_requests = 5; window = 60 }

abbrev cfg : LdapPasswordMode → LdapConfig
cfg mode = record {
  enabled = true;
  base_dn = codes "dc=x";
  service_password_hash = some (codes "s");
  password_mode = mode;
}

-- user 7, with a password
abbrev db : Db
db = record Sample.db {
  authenticators = record { id = 1; scheme = password (codes "p"); owner_id = 7 } ∷ [];
}

-- and with one for an application
abbrev apps : List AppPassword
apps =
    record {
      id = 4;
      user_id = 7;
      name = codes "mail";
      password_hash = codes "a";
      created_at = 1;
      last_used_at = none;
    }
    ∷ []

abbrev bind : Text → Text → LdapPasswordMode → Bound
bind dn pw mode =
    (handle_bind argon limits 1 1 (record { dn = dn; pw = pw }) (cfg mode) 9 (λ ip. none) db apps).0

abbrev ada : Text
ada = codes "UID=ada,ou=people,dc=x"

bind_tests :
    (bind (codes "cn=service,dc=x") (codes "s") app_only ≡ (succeeded, service))
    × (bind (codes "cn=service,dc=x") (codes "p") app_only ≡ failed)
    × (bind ada (codes "p") primary_only ≡ (succeeded, user 7))
    × (bind ada (codes "p") app_only ≡ failed)
    × (bind ada (codes "a") app_only ≡ (succeeded, user 7))
    × (bind ada (codes "a") primary_only ≡ failed)
    × (bind ada (codes "p") primary_and_app ≡ (succeeded, user 7))
    × (bind (codes "uid=bob,ou=people,dc=x") (codes "p") primary_and_app ≡ failed)
    × (bind (codes "cn=ada,ou=people,dc=x") (codes "p") primary_and_app ≡ failed)
unfolding binds
bind_tests = (refl, refl, refl, refl, refl, refl, refl, refl, refl)

handle_bind-IsBound_example :
    IsBound argon
      (record { dn = ada; pw = codes "p" })
      (cfg primary_and_app)
      db
      apps
      (succeeded, user 7)
unfolding binds
handle_bind-IsBound_example =
    handle_bind-IsBound argon limits 1 1 (record { dn = ada; pw = codes "p" }) (cfg primary_and_app)
      9 (λ ip. none) db apps
