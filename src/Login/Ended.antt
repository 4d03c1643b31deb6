-- ===== src/Login/Ended.antt =====
-- What a logout of server/src/handlers/auth.rs ends.
use authere.Base.{ℕ, ◌≡◌, refl, sym, subst, Option, none, some, inl, inr, Option-cases}
use authere.Base.Text.{Text, codes}
use authere.Base.Errors.{authentication_required, ok, err, Result-cases}
use authere.Http.{Headers, extract_cookie}
use authere.Session.{Claims, Store, verify_user_session}
use authere.Session.Tokens.{consume_refresh_token, verify_access_token}
use authere.Session.Later.{
  IsLater, IsLater-refl, consume_refresh_token-IsLater, verify_user_session-revoked,
}
use authere.Login.{
  Crates, verify_and_revoke_refresh_token, refresh_cookie, user_of_refresh, user_of_access,
  logout_user, browser_logout,
}

module _ (crates : Crates) where
  -- The user whom the cookies of a request name: the one of a refresh token that is consumed now, or
  -- else the one of an access token that is accepted, where there is no refresh cookie or its token
  -- is refused.
  pub data IsNamed (headers : Headers) (now id : ℕ) (store : Store) : Type 0 where
    by_refresh :
        (token : Text) (session : Claims)
        → refresh_cookie crates headers ≡ some token
        → (consume_refresh_token crates.sessions token now store).0 ≡ ok (id, session)
        → IsNamed headers now id store
    by_access :
        (access : Text) (claims : Claims)
        → refresh_cookie crates headers ≡ none
        → extract_cookie crates.to_str headers (codes "__Host-authere_token") ≡ some access
        → verify_access_token crates.sessions access now store ≡ ok claims
        → crates.sessions.parse_uuid claims.sub ≡ some id
        → IsNamed headers now id store
    by_access_alone :
        (token access : Text) (claims : Claims)
        → refresh_cookie crates headers ≡ some token
        → (consume_refresh_token crates.sessions token now store).0 ≡ err authentication_required
        → extract_cookie crates.to_str headers (codes "__Host-authere_token") ≡ some access
        → verify_access_token crates.sessions access now
            (consume_refresh_token crates.sessions token now store).1
          ≡ ok claims
        → crates.sessions.parse_uuid claims.sub ≡ some id
        → IsNamed headers now id store

  user_of_refresh-IsLater :
      (headers : Headers) (now : ℕ) (store : Store)
      → IsLater store (user_of_refresh crates headers now store).1
  unfolding user_of_refresh verify_and_revoke_refresh_token
  user_of_refresh-IsLater headers now store = elim (Option-cases (refresh_cookie crates headers)) [
    | inl missing ↦ rw (user_of_refresh, missing) (IsLater-refl store)
    | inr (token, given) ↦
        rw (user_of_refresh, given) (consume_refresh_token-IsLater crates.sessions token now store)
  ]

  -- Generations only grow in finding out whom to log out.
  logout_user-IsLater :
      (headers : Headers) (now : ℕ) (store : Store)
      → IsLater store (logout_user crates headers now store).1
  unfolding logout_user
  logout_user-IsLater headers now store =
      let later = user_of_refresh-IsLater headers now store in
      elim (Result-cases (user_of_refresh crates headers now store).0) [
        | inr (e, bad) ↦ rw (logout_user, bad) later
        | inl (found, e) ↦ elim (Option-cases found) [
          | inl nobody ↦ rw (logout_user, e, nobody) later
          | inr (id, there) ↦ rw (logout_user, e, there) later
        ]
      ]

  not_refreshed :
      (headers : Headers) (now : ℕ) (store : Store) (token : Text)
      → refresh_cookie crates headers ≡ some token
      → (consume_refresh_token crates.sessions token now store).0 ≡ err authentication_required
      → ((user_of_refresh crates headers now store).0 ≡ ok none)
        × ((user_of_refresh crates headers now store).1
            ≡ (consume_refresh_token crates.sessions token now store).1)
  unfolding user_of_refresh verify_and_revoke_refresh_token
  not_refreshed headers now store token given refused = (
    rw (user_of_refresh, given, verify_and_revoke_refresh_token, refused) refl,
    rw (user_of_refresh, given) refl,
  )

  found_by_access :
      (headers : Headers) (now id : ℕ) (store after : Store) (access : Text) (claims : Claims)
      → (user_of_refresh crates headers now store).0 ≡ ok none
      → (user_of_refresh crates headers now store).1 ≡ after
      → extract_cookie crates.to_str headers (codes "__Host-authere_token") ≡ some access
      → verify_access_token crates.sessions access now after ≡ ok claims
      → crates.sessions.parse_uuid claims.sub ≡ some id
      → (logout_user crates headers now store).0 ≡ ok (some id)
  unfolding logout_user user_of_access
  found_by_access headers now id store after access claims nobody left cookie accepted read =
      let there : user_of_access crates headers now (user_of_refresh crates headers now store).1
          ≡ ok (some id) =
        subst (λ s. user_of_access crates headers now s ≡ ok (some id)) (sym left)
          (rw (user_of_access, cookie, accepted, read) refl) in
      rw (logout_user, nobody) there

  -- The user who is named is found.
  logout_user-finds :
      (headers : Headers) (now id : ℕ) (store : Store)
      → IsNamed headers now id store
      → (logout_user crates headers now store).0 ≡ ok (some id)
  unfolding logout_user user_of_refresh verify_and_revoke_refresh_token
  logout_user-finds headers now id store (by_refresh token session cookie consumed) =
      rw (logout_user, user_of_refresh, cookie, verify_and_revoke_refresh_token, consumed) refl
  logout_user-finds headers now id store (by_access access claims missing cookie accepted read) =
      found_by_access headers now id store store access claims (rw (user_of_refresh, missing) refl)
        (rw (user_of_refresh, missing) refl) cookie accepted read
  logout_user-finds headers now id store
        (by_access_alone token access claims given refused cookie accepted read) =
      let (nobody, left) = not_refreshed headers now store token given refused in
      found_by_access headers now id store _ access claims nobody left cookie accepted read

  -- A browser's logout ends every session that was valid before it of the user whom its cookies name,
  -- by a refresh token that is consumed, or else by an access token that is accepted.
  pub browser_logout_ends :
      (headers : Headers) (redirect_uri : Option Text) (now id issued_at : ℕ)
      (session_version : Option ℕ) (store : Store)
      → IsNamed headers now id store
      → verify_user_session id issued_at session_version store ≡ ok tt
      → verify_user_session id issued_at session_version
          (browser_logout crates headers redirect_uri now store).1
        ≡ err authentication_required
  unfolding browser_logout
  browser_logout_ends headers redirect_uri now id issued_at session_version store named valid =
      let found = logout_user-finds headers now id store named in
      let later = logout_user-IsLater headers now store in
      rw (browser_logout, found)
        (verify_user_session-revoked id now issued_at session_version store
          (logout_user crates headers now store).1 _ later (IsLater-refl _) valid)
