-- ===== src/Registration/Registered.antt =====
-- What a registration leaves (server/src/handlers/registration.rs).
use authere.Base.{
  ℕ, ◌≡◌, ◌∙◌, refl, ap, Bool, true, false, Option, none, some, ◌∷◌, ◌==◌, ==_iff, arith,
  Bool-cases, Option-cases, inl, inr, any,
}
use mathlib.Core.Path.{ap₂}
use authere.Base.Text.{Text, same, same_refl}
use authere.Base.Rows.{find}
use authere.Base.Errors.{AppError, Result, ok, err, Result-cases}
use authere.Role.{role_user, get_by_name, assign}
use authere.User.{User, IsMatch, get_by_username, is_taken}
use authere.User.Password.{Argon, Authenticator, new_password, validate_create_input}
use authere.Invitation.{Invitation, Invitations, consume}
use authere.Settings.{open_registration_enabled}
use authere.Session
use authere.Session.{TokenPair, Store}
use authere.State.{Db, users_of}
use authere.Registration.{
  RegisterInput, Registry, Draws, RegisterError, app, profile_of, set_profile, insert_user,
  save_user, save_authenticator, assign_user_role, create_account, consume_invitation, create_input,
  new_user, check_registration, open_session, enroll, register_user, register_admitted,
}

-- what the statements that make a user leave
pub record IsCreated (user : User) (db after : Db) : Type 0 where
  pub was_free : is_taken user (users_of db) ≡ false
  pub is_there : get_by_username user.username (users_of after) ≡ some user

own_profile : (user : User) (db : Db) → set_profile user db.profiles user.id ≡ profile_of user
own_profile user db = rw ((==_iff user.id user.id).1 refl) refl

inserted-shows :
    (user : User) (db : Db)
    → get_by_username user.username (users_of (insert_user user db)) ≡ some user
unfolding get_by_username insert_user find
inserted-shows user db = rw (own_profile user db, same_refl user.username) refl

save_user-IsCreated :
    (user : User) (db after : Db) → save_user user db ≡ ok after → IsCreated user db after
unfolding save_user
save_user-IsCreated user db after h = elim (Bool-cases (is_taken user (users_of db))) [
  | inl taken ↦ ground arith
  | inr free ↦
      let e : after ≡ insert_user user db = ground arith in
      rw (e) (record { was_free = free; is_there = inserted-shows user db })
]

save_authenticator-users :
    (a : Authenticator) (db after : Db)
    → save_authenticator a db ≡ ok after
    → users_of after ≡ users_of db
unfolding save_authenticator
save_authenticator-users a db after h =
    elim (Bool-cases (any (λ (row : Authenticator). row.id == a.id) db.authenticators)) [
      | inl taken ↦ ground arith
      | inr free ↦
          let e : after ≡ record db { authenticators = a ∷ db.authenticators } = ground arith in
          ap users_of e
    ]

assign_user_role-users :
    (id : ℕ) (db after : Db) → assign_user_role id db ≡ ok after → users_of after ≡ users_of db
unfolding assign_user_role
assign_user_role-users id db after h =
    elim (Option-cases (get_by_name role_user db.sessions.tables)) [
      | inl missing ↦ let e : after ≡ db = ground arith in ap users_of e
      | inr (role, found) ↦ elim (Result-cases (assign id role.id db.sessions.tables).0) [
        | inr (e, bad) ↦ ground arith
        | inl (u, good) ↦
            let e : after ≡ record db {
              sessions = record db.sessions { tables = (assign id role.id db.sessions.tables).1 };
            } =
              ground arith in
            ap users_of e
      ]
    ]

-- A user whom the statements make was not there, and is found by the username afterwards.
create_account-IsCreated :
    (user : User) (a : Authenticator) (db after : Db)
    → create_account user a db ≡ ok after
    → IsCreated user db after
unfolding create_account
create_account-IsCreated user a db after h = elim (Result-cases (save_user user db)) [
  | inr (e, bad) ↦ ground arith
  | inl (d1, saved) ↦ elim (Result-cases (save_authenticator a d1)) [
    | inr (e, bad) ↦ ground arith
    | inl (d2, kept) ↦
        let assigned : assign_user_role user.id d2 ≡ ok after = ground arith in
        let created = save_user-IsCreated user db d1 saved in
        let users : users_of after ≡ users_of d1 =
          assign_user_role-users user.id d2 after assigned
          ∙ save_authenticator-users a d1 d2 kept in
        record {
          was_free = created.was_free;
          is_there = ap (get_by_username user.username) users ∙ created.is_there;
        }
  ]
]

-- why a registration was let in, and the invitations that it leaves
pub data IsInvited (is_open : Bool) (code : Option Text) (now : ℕ) (rows : Invitations)
    : Invitations → Type 0 where
  openly : is_open ≡ true → IsInvited is_open code now rows rows
  invited :
      (id : Text) (invite : Invitation) (after : Invitations)
      → is_open ≡ false
      → code ≡ some id
      → consume id now rows ≡ (some invite, after)
      → IsInvited is_open code now rows after

consume_invitation-IsInvited :
    (is_open : Bool) (code : Option Text) (now : ℕ) (rows after : Invitations)
    → consume_invitation is_open code now rows ≡ ok after
    → IsInvited is_open code now rows after
unfolding consume_invitation
consume_invitation-IsInvited true code now rows after h =
    let e : rows ≡ after = ground arith in rw⁻¹ (e) (openly refl)
consume_invitation-IsInvited false none now rows after h = ground arith
consume_invitation-IsInvited false (some id) now rows after h =
    elim (Option-cases (consume id now rows).0) [
      | inl missing ↦ ground arith
      | inr (invite, got) ↦
          let e : (consume id now rows).1 ≡ after = ground arith in
          invited id invite after refl refl (ap₂ (λ o r. (o, r)) got e)
    ]

module _ (is_match : IsMatch) (argon : Argon) (sessions : Session.Crates) (input : RegisterInput)
    (draws : Draws) (now : ℕ) (registry : Registry) where
  -- what the transaction of a registration leaves
  pub record IsEnrolled (made : Registry) : Type 0 where
    pub valid : validate_create_input is_match (create_input input) ≡ ok tt
    pub invited :
        IsInvited
          (open_registration_enabled registry.settings)
          input.invite_code
          now
          registry.invitations
          made.invitations
    pub created : IsCreated (new_user draws.user_id now (create_input input)) registry.db made.db
    pub settings : made.settings ≡ registry.settings

  -- what a registration may come to
  pub data IsRegistered : Result TokenPair RegisterError × Registry → Type 0 where
    refused : (e : AppError) → IsRegistered (err (app e), registry)
    registered :
        (made : Registry) → IsEnrolled made → IsRegistered (open_session sessions draws now made)

  enroll-IsEnrolled :
      (a : Authenticator) (made : Registry)
      → validate_create_input is_match (create_input input) ≡ ok tt
      → enroll is_match argon input draws now a registry ≡ ok made
      → IsEnrolled made
  unfolding enroll
  enroll-IsEnrolled a made valid h =
      let is_open = open_registration_enabled registry.settings in
      let user = new_user draws.user_id now (create_input input) in
      elim (Result-cases (consume_invitation is_open input.invite_code now registry.invitations)) [
        | inr (e, bad) ↦ ground arith
        | inl (rows, consumed) ↦ elim (Result-cases (create_account user a registry.db)) [
          | inr (e, bad) ↦ ground arith
          | inl (db, done) ↦
              let e : made ≡ record registry { db = db; invitations = rows } = ground arith in
              rw (e) (record {
                valid = valid;
                invited =
                    consume_invitation-IsInvited is_open input.invite_code now _ rows consumed;
                created = create_account-IsCreated user a registry.db db done;
                settings = refl;
              })
        ]
      ]

  valid-of_check :
      check_registration is_match argon input now registry ≡ ok tt
      → validate_create_input is_match (create_input input) ≡ ok tt
  unfolding check_registration
  valid-of_check h = elim (Bool-cases (same input.password input.confirm_password)) [
    | inr differ ↦ ground arith
    | inl agree ↦ elim (Result-cases (validate_create_input is_match (create_input input))) [
      | inr (e, bad) ↦ ground arith
      | inl (u, good) ↦ good
    ]
  ]

  register_user-IsEnrolled :
      (made : Registry)
      → register_user is_match argon input draws now registry ≡ ok made
      → IsEnrolled made
  unfolding register_user
  register_user-IsEnrolled made h =
      elim (Result-cases (check_registration is_match argon input now registry)) [
        | inr (e, bad) ↦ ground arith
        | inl (u, checked) ↦
            elim (Option-cases
              (new_password argon draws.authenticator_id draws.salt input.password draws.user_id)) [
                | inl failed ↦ ground arith
                | inr (a, hashed) ↦ enroll-IsEnrolled a made (valid-of_check checked) (ground arith)
              ]
      ]

  -- A registration that fails before its transaction is committed leaves the tables as they were.
  -- Any other was of valid input; where registration is not open it has consumed the invitation whose
  -- code it gave, and otherwise none; the user's id and username were free, the user is found by the
  -- username, and the request goes on to open a session for the user.
  pub register_admitted-IsRegistered :
      IsRegistered (register_admitted is_match argon sessions input draws now registry)
  unfolding register_admitted
  register_admitted-IsRegistered =
      elim (Result-cases (register_user is_match argon input draws now registry)) [
        | inr (e, bad) ↦ rw (register_admitted, bad) (refused e)
        | inl (made, good) ↦
            rw (register_admitted, good) (registered made (register_user-IsEnrolled made good))
      ]
