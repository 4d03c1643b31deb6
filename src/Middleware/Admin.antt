-- ===== src/Middleware/Admin.antt =====
-- Whom the extractors of server/src/auth_middleware.rs let through.
use authere.Base.{ℕ, ◌≡◌, ◌∙◌, refl, ap, true, Option-cases, Bool-cases, inl, inr, arith, some}
use authere.Base.Text.{Text, contains}
use authere.Base.Errors.{ok, Result-cases}
use authere.Http.{Headers, ToStr}
use authere.Role.{role_admin}
use authere.Session
use authere.Session.{Store, Claims}
use authere.Session.Tokens.{get_roles, verify_access_token}
use authere.Session.Access.{IsAccepted, verify_access_token-IsAccepted}
use authere.Middleware.{AuthUser, is_admin, extract_token, auth_user, admin_user}

module _ (sessions : Session.Crates) (to_str : ToStr) (headers : Headers) (now : ℕ)
    (store : Store) where
  -- the token of a request, and the claims that were accepted
  pub record IsFrom (user : AuthUser) : Type 0 where
    pub token : Text
    pub claims : Claims
    pub extracted : extract_token to_str headers ≡ some token
    pub accepted : IsAccepted sessions token now store claims
    pub is_user : user.user_id ≡ accepted.id
    pub has_roles : user.roles ≡ get_roles user.user_id store

  auth_user-IsFrom :
      (user : AuthUser) → auth_user sessions to_str headers now store ≡ ok user → IsFrom user
  unfolding auth_user
  auth_user-IsFrom user h = elim (Option-cases (extract_token to_str headers)) [
    | inl missing ↦ ground arith
    | inr (token, extracted) ↦ elim (Result-cases (verify_access_token sessions token now store)) [
      | inr (e, bad) ↦ ground arith
      | inl (claims, good) ↦
          let accepted = verify_access_token-IsAccepted sessions token now store claims good in
          let sub : claims.sub ≡ accepted.claims.sub = ap (λ c. c.sub) accepted.shown in
          let parsed : sessions.parse_uuid claims.sub ≡ some accepted.id =
            ap sessions.parse_uuid sub ∙ accepted.subject in
          let roles : claims.roles ≡ get_roles accepted.id store =
            ap (λ c. c.roles) accepted.shown in
          let is_user : user ≡ record { user_id = accepted.id; roles = claims.roles } =
            ground arith in
          rw (is_user) (record {
            token = token;
            claims = claims;
            extracted = extracted;
            accepted = accepted;
            is_user = refl;
            has_roles = roles;
          })
    ]
  ]

  -- A request is taken for an administrator's only if its token is accepted, and the database now
  -- has the role `admin` for the user of the token.
  pub admin_user-IsFrom :
      (user : AuthUser)
      → admin_user sessions to_str headers now store ≡ ok user
      → IsFrom user × (contains (get_roles user.user_id store) role_admin ≡ true)
  unfolding admin_user is_admin
  admin_user-IsFrom user h = elim (Result-cases (auth_user sessions to_str headers now store)) [
    | inr (e, bad) ↦ ground arith
    | inl (found, good) ↦ elim (Bool-cases (is_admin found)) [
      | inr plain ↦ ground arith
      | inl admin ↦
          let from = auth_user-IsFrom found good in
          let same_user : found ≡ user = ground arith in
          rw⁻¹ (same_user) (from, rw⁻¹ (from.has_roles) admin)
    ]
  ]
