-- ===== src/Registration.antt =====
-- server/src/handlers/registration.rs: the registration of users; and `create_user` of
-- server/src/handlers/user.rs. Fresh ids, the salt and the clocks are arguments.
pub mod Registered
mod Examples
use authere.Base.{
  ℕ, Bool, true, false, not, Option, none, some, List, [], ◌∷◌, any, is_some, ◌==◌, if◌then◌else◌,
}
use authere.Base.Text.{Text, same}
use authere.Base.Rows.{find}
use authere.Base.Errors.{
  AppError, unique_error, input_error, internal_error, from_sqlx, Result, ok, err, ◌>>=◌,
}
use authere.RateLimit
use authere.RateLimit.{Config, Entries}
use authere.Role
use authere.Role.{role_user, get_by_name, assign}
use authere.User.{User, CreateUserInput, IsMatch, is_taken}
use authere.User
use authere.User.Password.{Argon, Authenticator, new_password, validate_create_input}
use authere.Invitation.{Invitation, Invitations, is_valid, consume}
use authere.Invitation
use authere.Settings.{Settings, open_registration_enabled, session_expiry_seconds}
use authere.Session
use authere.Session.{TokenPair}
use authere.Session.Tokens.{Fresh, generate_token_pair}
use authere.State.{Db, Profile, users_of}

pub record RegisterInput : Type 0 where
  pub username : Text
  pub name : Text
  pub email : Option Text
  pub password : Text
  pub confirm_password : Text
  pub invite_code : Option Text

-- the tables that a registration acts on
pub record Registry : Type 0 where
  pub db : Db
  pub invitations : Invitations
  pub settings : Settings

-- what a request draws: the ids of the user and of the authenticator, the salt, the tokens' values
pub record Draws : Type 0 where
  pub user_id : ℕ
  pub authenticator_id : ℕ
  pub salt : Text
  pub tokens : Fresh

-- `RegisterError`
pub data RegisterError : Type 0 where
  app : AppError → RegisterError
  limited : ℕ → RegisterError

abbrev pub profile_of : User → Profile
profile_of user = record {
  username = user.username;
  name = user.name;
  email = user.email;
  created_at = user.created_at;
  updated_at = user.updated_at;
}

abbrev pub set_profile : User → (ℕ → Profile) → ℕ → Profile
set_profile user profiles id = if id == user.id then profile_of user else profiles id

-- the database with a new row of `users`
unfoldable pub insert_user : User → Db → Db
insert_user user db = record db {
  sessions = record db.sessions {
    accounts =
        record { id = user.id; active = user.active; token_version = 0 } ∷ db.sessions.accounts;
    tables = record db.sessions.tables { users = user.id ∷ db.sessions.tables.users };
  };
  profiles = set_profile user db.profiles;
}

-- `user.save(&mut tx)`
unfoldable pub save_user : User → Db → Result Db AppError
save_user user db =
    if is_taken user (users_of db)
    then err (unique_error "Username already taken")
    else ok (insert_user user db)

-- `authenticator.save(&mut tx)`
unfoldable pub save_authenticator : Authenticator → Db → Result Db AppError
save_authenticator a db =
    if any (λ (row : Authenticator). row.id == a.id) db.authenticators
    then err (from_sqlx true "")
    else ok (record db { authenticators = a ∷ db.authenticators })

-- the role `user`, where there is one
unfoldable pub assign_user_role : ℕ → Db → Result Db AppError
assign_user_role user_id db = elim (get_by_name role_user db.sessions.tables) [
  | none ↦ ok db
  | some role ↦
      let (assigned, tables) = assign user_id role.id db.sessions.tables in
      elim assigned [
        | err e ↦ err e
        | ok _ ↦ ok (record db { sessions = record db.sessions { tables = tables } })
      ]
]

-- the statements that make a user
unfoldable pub create_account : User → Authenticator → Db → Result Db AppError
create_account user a db = save_user user db >>= save_authenticator a >>= assign_user_role user.id

abbrev is_invited : ℕ → Option Invitation → Bool
is_invited now none = false
is_invited now (some invite) = is_valid now invite

abbrev bad_invitation : AppError
bad_invitation = input_error ("Invitation is invalid or expired" ∷ [])

-- the check of the invitation before the transaction
unfoldable pub check_invitation : Bool → Option Text → ℕ → Invitations → Result (Unit {0}) AppError
check_invitation true code now rows = ok tt
check_invitation false none now rows = err (input_error ("Registration is by invitation only" ∷ []))
check_invitation false (some code) now rows =
    if is_invited now (Invitation.get code rows) then ok tt else err bad_invitation

-- the invitation that the transaction consumes
unfoldable pub consume_invitation :
    Bool → Option Text → ℕ → Invitations → Result Invitations AppError
consume_invitation true code now rows = ok rows
consume_invitation false none now rows = err bad_invitation
consume_invitation false (some code) now rows =
    let (consumed, after) = consume code now rows in
    elim consumed [ none ↦ err bad_invitation | some invite ↦ ok after ]

abbrev pub create_input : RegisterInput → CreateUserInput
create_input input = record {
  username = input.username;
  name = input.name;
  password = input.password;
  email = input.email;
}

abbrev pub new_user : ℕ → ℕ → CreateUserInput → User
new_user id now input = User.new id now input.username input.name input.email

-- the session of a user who has been made
unfoldable pub open_session :
    Session.Crates → Draws → ℕ → Registry → Result TokenPair RegisterError × Registry
open_session sessions draws now made =
    let (pair, store) =
      generate_token_pair sessions (session_expiry_seconds made.settings) draws.tokens now
        draws.user_id (role_user ∷ []) made.db.sessions in
    let after = record made { db = record made.db { sessions = store } } in
    elim pair [ err e ↦ (err (app e), after) | ok p ↦ (ok p, after) ]

module _ (is_match : IsMatch) (argon : Argon) where
  -- the checks before the transaction
  unfoldable pub check_registration : RegisterInput → ℕ → Registry → Result (Unit {0}) AppError
  check_registration input now registry =
      if not (same input.password input.confirm_password)
      then err (input_error ("Passwords do not match" ∷ []))
      else validate_create_input is_match (create_input input) >>= (λ _.
        check_invitation (open_registration_enabled registry.settings) input.invite_code now
          registry.invitations)

  -- the user and the authenticator, in a transaction
  unfoldable pub enroll :
      RegisterInput → Draws → ℕ → Authenticator → Registry → Result Registry AppError
  enroll input draws now a registry =
      elim (consume_invitation (open_registration_enabled registry.settings) input.invite_code now
        registry.invitations) [
          | err e ↦ err e
          | ok rows ↦
              elim (create_account (new_user draws.user_id now (create_input input)) a
                registry.db) [
                  | err e ↦ err e
                  | ok db ↦ ok (record registry { db = db; invitations = rows })
                ]
        ]

  -- the checks, the hash and the transaction
  unfoldable pub register_user : RegisterInput → Draws → ℕ → Registry → Result Registry AppError
  register_user input draws now registry = elim (check_registration input now registry) [
    | err e ↦ err e
    | ok _ ↦
        elim (new_password argon draws.authenticator_id draws.salt input.password draws.user_id) [
          | none ↦ err (internal_error "Failed to create authenticator")
          | some a ↦ enroll input draws now a registry
        ]
  ]

  -- `register` after the rate limiter; an error of the transaction undoes it
  unfoldable pub register_admitted :
      Session.Crates
      → RegisterInput
      → Draws
      → ℕ
      → Registry
      → Result TokenPair RegisterError × Registry
  register_admitted sessions input draws now registry =
      elim (register_user input draws now registry) [
        | err e ↦ (err (app e), registry)
        | ok made ↦ open_session sessions draws now made
      ]

  -- `register`; `instant` is the limiter's clock
  unfoldable register :
      Session.Crates
      → Config
      → ℕ
      → ℕ
      → RegisterInput
      → Draws
      → ℕ
      → Entries
      → Registry
      → Result TokenPair RegisterError × Entries × Registry
  register sessions config ip instant input draws now entries registry =
      let (admitted, limiter) = RateLimit.check config ip instant entries in
      elim admitted [
        | err wait ↦ (err (limited wait), limiter, registry)
        | ok _ ↦
            let (pair, after) = register_admitted sessions input draws now registry in
            (pair, limiter, after)
      ]

  -- `create_user`, for an administrator
  unfoldable create_user : CreateUserInput → Draws → ℕ → Db → Result User AppError × Db
  create_user input draws now db = elim (validate_create_input is_match input) [
    | err e ↦ (err e, db)
    | ok _ ↦
        elim (new_password argon draws.authenticator_id draws.salt input.password draws.user_id) [
          | none ↦ (err (internal_error "Failed to create Authenticator for user"), db)
          | some a ↦ elim (create_account (new_user draws.user_id now input) a db) [
            | err e ↦ (err e, db)
            | ok after ↦ (ok (new_user draws.user_id now input), after)
          ]
        ]
  ]

-- `validate_invite`
unfoldable validate_invite : Text → ℕ → Invitations → Bool
validate_invite code now rows = is_invited now (Invitation.get code rows)
