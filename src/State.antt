-- ===== src/State.antt =====
-- The tables of the database together, as the handlers of server/src/handlers use them. A row of
-- `users` has the columns of `Account` and those of `Profile`.
use authere.Base.{ℕ, Option, none, some, List, map}
use authere.Base.Text.{Text}
use authere.Base.Rows.{find}
use authere.User.{User, Users}
use authere.User.Password.{Authenticator}
use authere.Application.{Application}
use authere.Session.{Account, Store, of_account}
use authere.Oidc.Codes.{Codes}
use authere.Totp.{Factors}

-- the columns of `users` that sessions do not read
pub record Profile : Type 0 where
  pub username : Text
  pub name : Text
  pub email : Option Text
  pub created_at : ℕ
  pub updated_at : ℕ

-- the tables
pub record Db : Type 0 where
  pub sessions : Store
  pub applications : List Application
  pub codes : Codes
  pub profiles : ℕ → Profile
  pub authenticators : List Authenticator
  pub factors : Factors

-- the row of `users` with the id of an account
abbrev user_of : Db → Account → User
user_of db account = record {
  id = account.id;
  username = (db.profiles account.id).username;
  name = (db.profiles account.id).name;
  email = (db.profiles account.id).email;
  active = account.active;
  created_at = (db.profiles account.id).created_at;
  updated_at = (db.profiles account.id).updated_at;
}

-- the rows of `users`
abbrev pub users_of : Db → Users
users_of db = map (user_of db) db.sessions.accounts

-- `User::get`
unfoldable pub get_user : ℕ → Db → Option User
get_user id db = elim (find (of_account id) db.sessions.accounts) [
  | none ↦ none
  | some account ↦ some (user_of db account)
]
