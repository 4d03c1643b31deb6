-- ===== src/User/Login.antt =====
-- Who can log in with a password: `User::login` and `update_password` of server/src/user, and the
-- passwords of applications.
use authere.Base.{
  ℕ, ◌≡◌, ◌≢◌, ◌⊎◌, ◌↔◌, subst, inl, inr, Bool, true, false, some, List, [], ◌∷◌, arith, Bool-cases,
  Option-cases,
}
use authere.Base.Text.{Text}
use authere.Base.Rows.{find, update_where, delete_where, find_passes}
use authere.Base.Errors.{AppError, authentication_required, ok, err}
use authere.User.{User, Users, get_by_username}
use authere.User.Password.{
  Argon, Authenticator, password, is_password_of, get_password_for, verify_password,
  try_password_login, login, update_password,
}
use authere.User.AppPassword.{AppPassword, is_own, delete_for_user, is_verified, verify_for_user}

module _ (argon : Argon) where
  -- A user who may log in with the password.
  abbrev pub IsWelcome : Text → Text → Users → List Authenticator → User → Type 0
  IsWelcome username cleartext users rows user =
      (get_by_username username users ≡ some user)
      × (user.active ≡ true)
      × (a : Authenticator) × (get_password_for user rows ≡ some a)
      × (verify_password argon a cleartext ≡ true)

  try_password_login_iff :
      (user : User) (cleartext : Text) (rows : List Authenticator)
      → (try_password_login argon user cleartext rows ≡ ok tt)
        ↔ (user.active ≡ true)
          × (a : Authenticator) × (get_password_for user rows ≡ some a)
          × (verify_password argon a cleartext ≡ true)
  unfolding try_password_login
  try_password_login_iff user cleartext rows = elim (Option-cases (get_password_for user rows)) [
    | inl missing ↦ (λ h. ground arith, λ (active, a, k, v). ground arith)
    | inr (a, found) ↦ (
      λ h. (ground arith, a, found, ground arith),
      λ (active, b, k, v).
          let same_row : a ≡ b = ground arith in
          let verified : verify_password argon a cleartext ≡ true = cc in ground arith,
    )
  ]

  try_password_login_cases :
      (user : User) (cleartext : Text) (rows : List Authenticator)
      → (try_password_login argon user cleartext rows ≡ ok tt)
        ⊎ (try_password_login argon user cleartext rows ≡ err authentication_required)
  unfolding try_password_login
  try_password_login_cases user cleartext rows = elim (Bool-cases user.active) [
    | inr inactive ↦ inr (ground arith)
    | inl active ↦ elim (Option-cases (get_password_for user rows)) [
      | inl missing ↦ inr (ground arith)
      | inr (a, found) ↦ elim (Bool-cases (verify_password argon a cleartext)) [
        | inl good ↦ inl (ground arith)
        | inr bad ↦ inr (ground arith)
      ]
    ]
  ]

  -- A login succeeds exactly for the user of the username, if the user is active and the password is
  -- that of the user; every other login ends in the same error, whatever its cause.
  pub login_iff :
      (username cleartext : Text) (users : Users) (rows : List Authenticator)
      → ((user : User)
          → (login argon username cleartext users rows ≡ ok user)
            ↔ IsWelcome username cleartext users rows user)
        × ((e : AppError)
            → login argon username cleartext users rows ≡ err e
            → e ≡ authentication_required)
  unfolding login
  login_iff username cleartext users rows = elim (Option-cases (get_by_username username users)) [
    | inl unknown ↦
        (λ user. (λ h. ground arith, λ (k, active, a, f, v). ground arith), λ e h. ground arith)
    | inr (known, found) ↦ elim (try_password_login_cases known cleartext rows) [
      | inl good ↦
          let (active, a, f, v) = (try_password_login_iff known cleartext rows).0 good in
          (
            λ user. (
              λ h.
                  let same_user : known ≡ user = ground arith in
                  subst (IsWelcome username cleartext users rows) same_user
                    (found, active, a, f, v),
              λ (k, active, a, f, v). ground arith,
            ),
            λ e h. ground arith,
          )
      | inr bad ↦ (
        λ user. (
          λ h. ground arith,
          λ (k, active, a, f, v).
              let same_user : user ≡ known = ground arith in
              let fine =
                subst (λ (u : User). try_password_login argon u cleartext rows ≡ ok tt) same_user
                  ((try_password_login_iff user cleartext rows).1 (active, a, f, v)) in
              ground arith,
        ),
        λ e h. ground arith,
      )
    ]
  ]

  get_password-update :
      (user : User) (hash : Text) (a : Authenticator) (rows : List Authenticator)
      → find (is_password_of user.id) rows ≡ some a
      → find
          (is_password_of user.id)
          (update_where (is_password_of user.id) (λ b. record b { scheme = password hash }) rows)
        ≡ some (record a { scheme = password hash })
  unfolding find update_where
  get_password-update user hash a [] h = cc
  get_password-update user hash a (b ∷ rows) h =
      ground (arith, get_password-update user hash a rows)

  -- If Argon2 verifies the password that a hash was made of, a user who is active and had a password
  -- can log in with the password that `update_password` has set.
  login-update_password :
      (user : User) (salt cleartext : Text) (users : Users) (a : Authenticator)
      (rows : List Authenticator)
      → ((hash : Text)
          → argon.hash_password salt cleartext ≡ some hash
          → argon.verify hash cleartext ≡ true)
      → get_by_username user.username users ≡ some user
      → user.active ≡ true
      → get_password_for user rows ≡ some a
      → (update_password argon user.id salt cleartext rows).0 ≡ ok tt
      → login argon user.username cleartext users
          (update_password argon user.id salt cleartext rows).1
        ≡ ok user
  unfolding update_password get_password_for verify_password
  login-update_password user salt cleartext users a rows law known active had done =
      elim (Option-cases (argon.hash_password salt cleartext)) [
        | inl unhashed ↦ ground arith
        | inr (hash, hashed) ↦
            let verified = law hash hashed in
            let found = get_password-update user hash a rows had in
            ((login_iff user.username cleartext users _).0 user).1 (
              known,
              active,
              record a { scheme = password hash },
              rw (update_password, hashed) found,
              verified,
            )
      ]

  find-delete_where {ℓ} :
      {A : Type ℓ} (p q : A → Bool) (rs : List A) (r : A)
      → find q (delete_where p rs) ≡ some r
      → p r ≡ false
  unfolding find delete_where
  find-delete_where p q [] r h = cc
  find-delete_where p q (x ∷ rs) r h = ground (arith, find-delete_where p q rs r)

  -- A password of an application that a user has deleted is not accepted from that user again.
  verify_for_user-delete :
      (now id user_id : ℕ) (cleartext : Text) (rows : List AppPassword)
      → (verify_for_user argon now user_id cleartext (delete_for_user id user_id rows).1).0
        ≢ some id
  unfolding verify_for_user delete_for_user
  verify_for_user-delete now id user_id cleartext rows h =
      elim (Option-cases
        (find (is_verified argon user_id cleartext) (delete_where (is_own id user_id) rows))) [
          | inl nothing ↦ ground arith
          | inr (row, found) ↦
              let mine = find_passes _ _ row found in
              let kept =
                find-delete_where (is_own id user_id) (is_verified argon user_id cleartext) rows row
                  found in
              ground arith
        ]
