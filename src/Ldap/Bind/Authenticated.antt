-- ===== src/Ldap/Bind/Authenticated.antt =====
-- Who a bind authenticates (server/src/ldap/handler.rs).
use authere.Base.{
  ℕ, ◌≡◌, ◌≢◌, refl, Bool, true, false, inl, inr, List, Bool-cases, Option-cases, Option, none,
  some, ◌&&◌, is_empty, if◌then◌else◌,
}
use authere.Base.Text.{Text}
use authere.Base.Rows.{find}
use authere.Base.Errors.{ok, Result-cases}
use authere.User.{User, get_by_username}
use authere.User.Password.{Argon, try_password_login}
use authere.User.AppPassword.{AppPassword, is_verified, verify_for_user}
use authere.State.{Db, users_of}
use authere.RateLimit
use authere.RateLimit.{Config, Entries}
use authere.Ldap.Dn.{Dn, equals, parse_dn}
use authere.Ldap.Entry.{
  LdapPasswordMode, primary_and_app, app_only, primary_only, LdapConfig, app_passwords_enabled,
  service_account_dn, people_base_dn,
}
use authere.Ldap.Search.{anonymous, service, user}
use authere.Ldap.Bind.{
  SimpleBindRequest, BindReply, Bound, succeeded, failed, read_username, user_has_totp, try_primary,
  try_app_password, primary_alone, try_mode, handle_user_bind, handle_service_bind, bind_below,
  bind_admitted, handle_bind,
}

module _ (argon : Argon) (pw : Text) (db : Db) (apps : List AppPassword) where
  -- one of the user's app passwords is right, in a mode that accepts them
  abbrev ByApp : LdapPasswordMode → User → Type 0
  ByApp mode u =
      (app_passwords_enabled mode ≡ true)
      × ((row : AppPassword) × (find (is_verified argon u.id pw) apps ≡ some row))

  -- the user's own password is right, and the user has no second factor
  abbrev ByPrimary : LdapPasswordMode → User → Type 0
  ByPrimary mode u =
      (mode ≢ app_only)
      × (user_has_totp u.id db ≡ false)
      × (try_password_login argon u pw db.authenticators ≡ ok tt)

  -- what a bind as a user may be
  pub data IsAuthenticated (mode : LdapPasswordMode) (u : User) : Bound → Type 0 where
    unbound : IsAuthenticated mode u failed
    by_app : ByApp mode u → IsAuthenticated mode u (succeeded, user u.id)
    by_primary : ByPrimary mode u → IsAuthenticated mode u (succeeded, user u.id)

  primary-IsAuthenticated :
      (mode : LdapPasswordMode) (u : User)
      → mode ≢ app_only
      → IsAuthenticated mode u (primary_alone argon pw u db)
  unfolding primary_alone try_primary
  primary-IsAuthenticated mode u h = elim (Bool-cases (user_has_totp u.id db)) [
    | inl protected ↦ rw (primary_alone, protected) unbound
    | inr alone ↦ elim (Result-cases (try_password_login argon u pw db.authenticators)) [
      | inl (done, right) ↦
          rw (primary_alone, try_primary, alone, right) (by_primary (h, alone, right))
      | inr (e, wrong) ↦ rw (primary_alone, try_primary, alone, wrong) unbound
    ]
  ]

  app-IsAuthenticated :
      (mode : LdapPasswordMode) (now : ℕ) (u : User) (otherwise : Bound)
      → app_passwords_enabled mode ≡ true
      → IsAuthenticated mode u otherwise
      → IsAuthenticated mode u (try_app_password argon now pw u otherwise apps).0
  unfolding try_app_password verify_for_user
  app-IsAuthenticated mode now u otherwise h other =
      elim (Option-cases (find (is_verified argon u.id pw) apps)) [
        | inl missing ↦ rw (try_app_password, verify_for_user, missing) other
        | inr (row, e) ↦ rw (try_app_password, verify_for_user, e) (by_app (h, (row, e)))
      ]

  mode-IsAuthenticated :
      (mode : LdapPasswordMode) (now : ℕ) (u : User)
      → IsAuthenticated mode u (try_mode argon mode now pw u db apps).0
  unfolding try_mode app_passwords_enabled
  mode-IsAuthenticated primary_only now u = primary-IsAuthenticated primary_only u (λ e. cc)
  mode-IsAuthenticated app_only now u = app-IsAuthenticated app_only now u failed refl unbound
  mode-IsAuthenticated primary_and_app now u =
      app-IsAuthenticated primary_and_app now u _ refl
        (primary-IsAuthenticated primary_and_app u (λ e. cc))

module _ (argon : Argon) (req : SimpleBindRequest) (cfg : LdapConfig) (db : Db)
    (apps : List AppPassword) where
  -- the name of a bind is that of a username below the people's unit
  abbrev pub Names : Text → Type 0
  Names username =
      (dn : Dn) × (people : Dn) × (parse_dn req.dn ≡ ok dn)
      × (parse_dn (people_base_dn cfg) ≡ ok people)
      × (read_username dn people ≡ some username)

  -- what a bind may be
  pub data IsBound : Bound → Type 0 where
    as_no_one : (reply : BindReply) → IsBound (reply, anonymous)
    as_service :
        (hash : Text)
        → cfg.service_password_hash ≡ some hash
        → argon.verify hash req.pw ≡ true
        → IsBound (succeeded, service)
    as_user :
        (username : Text) (u : User)
        → Names username
        → get_by_username username (users_of db) ≡ some u
        → u.active ≡ true
        → {bound : Bound} → IsAuthenticated argon req.pw db apps cfg.password_mode u bound
        → IsBound bound

  hash-IsBound :
      (stored : Option Text)
      → cfg.service_password_hash ≡ stored
      → IsBound (elim stored [
        | none ↦ failed
        | some hash ↦ if argon.verify hash req.pw then (succeeded, service) else failed
      ])
  hash-IsBound none e = as_no_one _
  hash-IsBound (some hash) e = elim (Bool-cases (argon.verify hash req.pw)) [
    | inl right ↦ rw (right) (as_service hash e right)
    | inr wrong ↦ rw (wrong) (as_no_one _)
  ]

  service-IsBound : IsBound (handle_service_bind argon req.pw cfg)
  unfolding handle_service_bind
  service-IsBound = hash-IsBound cfg.service_password_hash refl

  active-IsBound :
      (now : ℕ) (username : Text) (u : User) (active : Bool)
      → Names username
      → get_by_username username (users_of db) ≡ some u
      → u.active ≡ active
      → IsBound
          (if active
            then try_mode argon cfg.password_mode now req.pw u db apps
            else (failed, apps)).0
  active-IsBound now username u false names e h = as_no_one _
  active-IsBound now username u true names e h =
      as_user username u names e h
        (mode-IsAuthenticated argon req.pw db apps cfg.password_mode now u)

  user-IsBound :
      (now : ℕ) (username : Text)
      → Names username
      → IsBound (handle_user_bind argon cfg.password_mode now req.pw username db apps).0
  unfolding handle_user_bind
  user-IsBound now username names = elim (Option-cases (get_by_username username (users_of db))) [
    | inl unknown ↦ rw (handle_user_bind, unknown) (as_no_one _)
    | inr (u, e) ↦ rw (handle_user_bind, e) (active-IsBound now username u u.active names e refl)
  ]

  below-IsBound :
      (dn : Dn) (now : ℕ)
      → parse_dn req.dn ≡ ok dn
      → IsBound (bind_below argon dn req cfg now db apps).0
  unfolding bind_below
  below-IsBound dn now parsed = elim (Result-cases (parse_dn (people_base_dn cfg))) [
    | inr (e, bad) ↦ rw (bind_below, bad) (as_no_one _)
    | inl (people, e) ↦ elim (Option-cases (read_username dn people)) [
      | inl other ↦ rw (bind_below, e, other) (as_no_one _)
      | inr (username, read) ↦
          rw (bind_below, e, read) (user-IsBound now username (dn, people, parsed, e, read))
    ]
  ]

  admitted-IsBound : (now : ℕ) → IsBound (bind_admitted argon req cfg now db apps).0
  unfolding bind_admitted
  admitted-IsBound now = elim (Result-cases (parse_dn req.dn)) [
    | inr (e, bad) ↦ rw (bind_admitted, bad) (as_no_one _)
    | inl (dn, parsed) ↦ elim (Result-cases (parse_dn (service_account_dn cfg))) [
      | inr (e, bad) ↦ rw (bind_admitted, parsed, bad) (as_no_one _)
      | inl (account, e) ↦ elim (Bool-cases (equals dn account)) [
        | inl same_name ↦ rw (bind_admitted, parsed, e, same_name) service-IsBound
        | inr other ↦ rw (bind_admitted, parsed, e, other) (below-IsBound dn now parsed)
      ]
    ]
  ]

-- A bind leaves a connection anonymous, or authenticates the service account with its password, or
-- authenticates the active user whose name below the people's unit it gives: with an app password of
-- this user, in a mode that accepts app passwords, or with the user's own password, in a mode that
-- accepts those and where the user has no second factor.
pub handle_bind-IsBound :
    (argon : Argon) (config : Config) (ip instant : ℕ) (req : SimpleBindRequest) (cfg : LdapConfig)
    (now : ℕ) (entries : Entries) (db : Db) (apps : List AppPassword)
    → IsBound argon req cfg db apps
        (handle_bind argon config ip instant req cfg now entries db apps).0
unfolding handle_bind
handle_bind-IsBound argon config ip instant req cfg now entries db apps =
    elim (Bool-cases (is_empty req.dn && is_empty req.pw)) [
      | inl no_name ↦ rw (handle_bind, no_name) (as_no_one _)
      | inr named ↦ elim (Result-cases (RateLimit.check config ip instant entries).0) [
        | inr (wait, late) ↦ rw (handle_bind, named, late) (as_no_one _)
        | inl (count, e) ↦ rw (handle_bind, named, e) (admitted-IsBound argon req cfg db apps now)
      ]
    ]
