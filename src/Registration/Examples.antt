-- ===== src/Registration/Examples.antt =====
-- A registration by invitation (server/src/handlers/registration.rs).
use authere.Base.{◌≡◌, refl, true, none, some, [], ◌∷◌, is_some}
use authere.Base.Text.{codes, same}
use authere.Base.Rows.{find, update_where, count_where}
use authere.Base.Errors.{input_error, Result, err}
use authere.Role.{get_by_name}
use authere.User
use authere.User.{get_by_username, is_taken, validate_username, validate_name, validate_email}
use authere.User.Password.{Argon, new_password, validate_password, validate_create_input}
use authere.Invitation
use authere.Invitation.{Invitation, is_valid, consume}
use authere.Settings.{get_setting, open_registration_enabled, session_expiry_seconds}
use authere.Session.Tokens.{
  sign, generate_access_token_for_session, insert_refresh_token, generate_refresh_token_for_session,
  generate_token_pair_for_session, generate_token_pair,
}
use authere.Session.{TokenPair, user_session_version}
use authere.State.{users_of}
use authere.Oauth.Sample
use authere.Registration.{
  RegisterInput, Registry, Draws, RegisterError, app, insert_user, save_user, save_authenticator,
  assign_user_role, create_account, check_invitation, consume_invitation, check_registration,
  open_session, enroll, register_user, register_admitted,
}
use authere.Registration.Registered.{IsRegistered, register_admitted-IsRegistered}

registration : Unit {0}
unfolding user_session_version sign generate_access_token_for_session insert_refresh_token
    generate_refresh_token_for_session generate_token_pair_for_session generate_token_pair
    session_expiry_seconds same find update_where count_where get_by_name User.new get_by_username
    is_taken validate_username validate_name validate_email new_password validate_password
    validate_create_input Invitation.get is_valid consume get_setting open_registration_enabled
    insert_user save_user save_authenticator assign_user_role create_account check_invitation
    consume_invitation check_registration open_session enroll register_user register_admitted
registration = tt

abbrev argon : Argon
argon = record {
  hash_password = λ salt cleartext. some cleartext;
  verify = λ hash cleartext. same hash cleartext;
}

abbrev invitation : Invitation
invitation = record {
  id = codes "i";
  created_by = 7;
  label = none;
  max_uses = some 1;
  uses = 0;
  expires_at = none;
  created_at = 3;
}

abbrev registry : Registry
registry = record { db = Sample.db; invitations = invitation ∷ []; settings = [] }

abbrev input : RegisterInput
input = record {
  username = codes "bob";
  name = codes "Bob";
  email = none;
  password = codes "hunter2hunter2";
  confirm_password = codes "hunter2hunter2";
  invite_code = some (codes "i");
}

abbrev draws : Draws
draws = record { user_id = 8; authenticator_id = 9; salt = []; tokens = Sample.fresh }

abbrev spent : Registry
spent = record registry { invitations = record invitation { uses = 1 } ∷ [] }

abbrev outcome : Result TokenPair RegisterError × Registry
outcome = register_admitted (λ p s. true) argon Sample.session_crates input draws 1000 registry

registration_tests :
    (is_some (find (λ u. same u.username (codes "bob")) (users_of outcome.1.db)) ≡ true)
    × (outcome.1.invitations ≡ spent.invitations)
    × (register_admitted (λ p s. true) argon Sample.session_crates input draws 1000 spent
        ≡ (err (app (input_error ("Invitation is invalid or expired" ∷ []))), spent))
    × (register_admitted
          (λ p s. true)
          argon
          Sample.session_crates
          (record input { invite_code = none })
          draws
          1000
          registry
        ≡ (err (app (input_error ("Registration is by invitation only" ∷ []))), registry))
unfolding registration
registration_tests = (refl, refl, refl, refl)

register_admitted-IsRegistered_example :
    IsRegistered
      (λ p s. true)
      argon
      Sample.session_crates
      input
      draws
      1000
      registry
      (register_admitted (λ p s. true) argon Sample.session_crates input draws 1000 registry)
register_admitted-IsRegistered_example =
    register_admitted-IsRegistered (λ p s. true) argon Sample.session_crates input draws 1000
      registry
