-- ===== src/Ldap/Bind.antt =====
-- `handle_bind` of server/src/ldap/handler.rs, over the rows of `app_passwords` and the entries of
-- `ldap_bind_rate_limiter`. Argon2 is a parameter.
pub mod Authenticated
mod Examples
use authere.Base.{
  ℕ, Bool, true, false, ◌&&◌, Option, none, some, List, [], ◌∷◌, is_empty, if◌then◌else◌,
}
use authere.Base.Text.{Text, codes, same}
use authere.Base.Errors.{Result, ok, err}
use authere.User.{User, get_by_username}
use authere.User.Password.{Argon, try_password_login}
use authere.User.AppPassword.{AppPassword, verify_for_user}
use authere.State.{Db, users_of}
use authere.RateLimit
use authere.RateLimit.{Config, Entries}
use authere.Totp.Table.{is_activated_for}
use authere.Ldap.Dn.{Dn, equals, depth_under, parse_dn}
use authere.Ldap.Entry.{
  LdapPasswordMode, primary_and_app, app_only, primary_only, LdapConfig, service_account_dn,
  people_base_dn,
}
use authere.Ldap.Search.{BindState, anonymous, service, user, is_one}

pub record SimpleBindRequest : Type 0 where
  pub dn : Text
  pub pw : Text

-- the message; `panicked` for the `expect` of `service_dn`
pub data BindReply : Type 0 where
  succeeded : BindReply
  invalid_cred : BindReply
  panicked : BindReply

abbrev pub Bound : Type 0
Bound = BindReply × BindState

abbrev pub failed : Bound
failed = (invalid_cred, anonymous)

-- the value of the first attribute where that is a `uid` (`leaf`)
abbrev leaf_uid : Dn → Option Text
leaf_uid [] = none
leaf_uid ((attr, value) ∷ rdns) = if same attr (codes "uid") then some value else none

-- the user that a name below the people's unit is for
unfoldable pub read_username : Dn → Dn → Option Text
read_username dn people = if is_one (depth_under dn people) then leaf_uid dn else none

-- `user_has_totp`
abbrev pub user_has_totp : ℕ → Db → Bool
user_has_totp user_id db = is_activated_for user_id db.factors

module _ (argon : Argon) where
  -- `try_primary`
  unfoldable pub try_primary : Text → User → Db → Bound
  try_primary pw u db = elim (try_password_login argon u pw db.authenticators) [
    | err _ ↦ failed
    | ok _ ↦ (succeeded, user u.id)
  ]

  abbrev bound_by_app : User → Option ℕ → Bound → Bound
  bound_by_app u none otherwise = otherwise
  bound_by_app u (some id) otherwise = (succeeded, user u.id)

  -- `try_app_password`, and the other attempt
  unfoldable pub try_app_password :
      ℕ → Text → User → Bound → List AppPassword → Bound × List AppPassword
  try_app_password now pw u otherwise apps =
      let (verified, after) = verify_for_user argon now u.id pw apps in
      (bound_by_app u verified otherwise, after)

  -- the primary password of a user without a second factor
  unfoldable pub primary_alone : Text → User → Db → Bound
  primary_alone pw u db = if user_has_totp u.id db then failed else try_primary pw u db

  -- the passwords that a mode accepts
  unfoldable pub try_mode :
      LdapPasswordMode → ℕ → Text → User → Db → List AppPassword → Bound × List AppPassword
  try_mode primary_only now pw u db apps = (primary_alone pw u db, apps)
  try_mode app_only now pw u db apps = try_app_password now pw u failed apps
  try_mode primary_and_app now pw u db apps = try_app_password now pw u (primary_alone pw u db) apps

  -- `handle_user_bind`
  unfoldable pub handle_user_bind :
      LdapPasswordMode → ℕ → Text → Text → Db → List AppPassword → Bound × List AppPassword
  handle_user_bind mode now pw username db apps = elim (get_by_username username (users_of db)) [
    | none ↦ (failed, apps)
    | some u ↦ if u.active then try_mode mode now pw u db apps else (failed, apps)
  ]

  -- `handle_service_bind`
  unfoldable pub handle_service_bind : Text → LdapConfig → Bound
  handle_service_bind pw cfg = elim cfg.service_password_hash [
    | none ↦ failed
    | some hash ↦ if argon.verify hash pw then (succeeded, service) else failed
  ]

  -- `handle_bind` where the name is not the service account's
  unfoldable pub bind_below :
      Dn → SimpleBindRequest → LdapConfig → ℕ → Db → List AppPassword → Bound × List AppPassword
  bind_below dn req cfg now db apps = elim (parse_dn (people_base_dn cfg)) [
    | err _ ↦ (failed, apps)
    | ok people ↦ elim (read_username dn people) [
      | none ↦ (failed, apps)
      | some username ↦ handle_user_bind cfg.password_mode now req.pw username db apps
    ]
  ]

  -- `handle_bind` after the rate limiter
  unfoldable pub bind_admitted :
      SimpleBindRequest → LdapConfig → ℕ → Db → List AppPassword → Bound × List AppPassword
  bind_admitted req cfg now db apps = elim (parse_dn req.dn) [
    | err _ ↦ (failed, apps)
    | ok dn ↦ elim (parse_dn (service_account_dn cfg)) [
      | err _ ↦ ((panicked, anonymous), apps)
      | ok account ↦
          if equals dn account
          then (handle_service_bind req.pw cfg, apps)
          else bind_below dn req cfg now db apps
    ]
  ]

  -- `handle_bind`; `instant` is the limiter's clock
  unfoldable pub handle_bind :
      Config
      → ℕ
      → ℕ
      → SimpleBindRequest
      → LdapConfig
      → ℕ
      → Entries
      → Db
      → List AppPassword
      → Bound × Entries × List AppPassword
  handle_bind config ip instant req cfg now entries db apps =
      let (admitted, limiter) = RateLimit.check config ip instant entries in
      if is_empty req.dn && is_empty req.pw
      then ((succeeded, anonymous), entries, apps)
      else elim admitted [
        | err wait ↦ (failed, limiter, apps)
        | ok _ ↦ let (bound, after) = bind_admitted req cfg now db apps in (bound, limiter, after)
      ]
