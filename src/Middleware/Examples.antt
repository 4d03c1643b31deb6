-- ===== src/Middleware/Examples.antt =====
-- Requests of user 7, an administrator, and posts from other sites.
use authere.Base.{ℕ, ◌+◌, ◌≡◌, ◌⊎◌, refl, true, false, none, some, [], ◌∷◌, if◌then◌else◌}
use authere.Base.Text.{codes, same, starts_with, contains}
use authere.Base.Rows.{find, delete_where}
use authere.Base.Errors.{forbidden, authentication_required, ok, err}
use authere.Http.{Headers, white_len, trim_start_from, is_white, trim_end, trim, split_from, split}
use authere.Role.{role_admin, get_for_user, join_roles}
use authere.Session.{Store, verify_user_session, user_session_version, verify_legacy}
use authere.Session.Tokens.{get_roles, verify_access_token, accept_session, access_claims}
use authere.Oauth.Sample
use authere.Middleware.{
  AuthUser, find_token, is_admin, bearer_token, cookie_token, extract_token, auth_user, admin_user,
  post, Request, Reply, refused, with_headers, insert, is_listed, is_site_allowed, is_allowed,
  protect_browser_requests,
}
use authere.Middleware.Admin.{IsFrom, admin_user-IsFrom}
use authere.Middleware.Origin.{MayPass, IsCarried, protect_browser_requests_cases}

middleware : Unit {0}
unfolding same starts_with find white_len trim_start_from is_white trim_end trim split_from split
    get_for_user join_roles verify_user_session user_session_version verify_legacy
    verify_access_token accept_session access_claims find_token is_admin bearer_token cookie_token
    extract_token auth_user admin_user with_headers is_listed is_site_allowed is_allowed
    protect_browser_requests
middleware = tt

abbrev admin_store : Store
admin_store = record Sample.store {
  tables = record {
    users = 7 ∷ [];
    roles = record { id = 1; name = role_admin; description = none } ∷ [];
    user_roles = record { user_id = 7; role_id = 1 } ∷ [];
  };
}

abbrev cookies : Headers
cookies name = if same name (codes "cookie") then codes "x=1; __Host-authere_token=a1" ∷ [] else []

abbrev bearer : Headers
bearer name = if same name (codes "authorization") then codes "Bearer a1" ∷ [] else []

abbrev foreign : Headers
foreign name = if same name (codes "origin") then codes "https://evil" ∷ [] else []

abbrev own : Headers
own name = if same name (codes "origin") then codes "https://id" ∷ [] else []

abbrev administrator : AuthUser
administrator = record { user_id = 7; roles = role_admin ∷ [] }

admitted : admin_user Sample.session_crates some cookies 1100 admin_store ≡ ok administrator
unfolding middleware
admitted = refl

admin_tests :
    (admin_user Sample.session_crates some bearer 1100 admin_store ≡ ok administrator)
    × (admin_user Sample.session_crates some bearer 1100 Sample.store ≡ err forbidden)
    × (admin_user Sample.session_crates some foreign 1100 admin_store ≡ err authentication_required)
unfolding middleware
admin_tests = (refl, refl, refl)

admin_user-IsFrom_example :
    IsFrom Sample.session_crates some cookies 1100 admin_store administrator
    × (contains (get_roles 7 admin_store) role_admin ≡ true)
admin_user-IsFrom_example =
    admin_user-IsFrom Sample.session_crates some cookies 1100 admin_store administrator admitted

-- a handler that counts what it is asked
abbrev count : Request → ℕ → Reply × ℕ
count request n = (record { status = 204; fields = [] }, n + 1)

abbrev write : Headers → Request
write headers = record { method = post; path = codes "/api/action"; headers = headers }

origin_tests :
    (protect_browser_requests some (codes "https://id" ∷ []) count (write foreign) 3 ≡ (refused, 3))
    × ((protect_browser_requests some (codes "https://id" ∷ []) count (write own) 3).1 ≡ 4)
    × ((protect_browser_requests some (codes "https://id" ∷ []) count (write bearer) 3).1 ≡ 4)
unfolding middleware
origin_tests = (refl, refl, refl)

-- a header that the handler has set is replaced
replace_test :
    (with_headers false
      (record { status = 200; fields = (codes "x-frame-options", codes "ANY") ∷ [] })).fields
    ≡ (codes "referrer-policy", codes "no-referrer")
      ∷ (codes "x-frame-options", codes "DENY")
      ∷ (codes "x-content-type-options", codes "nosniff")
      ∷ []
unfolding middleware insert delete_where
replace_test = refl

protect_browser_requests_cases_example :
    ((¬ MayPass some (codes "https://id" ∷ []) (write own))
      × (protect_browser_requests some (codes "https://id" ∷ []) count (write own) 3
          ≡ (record { status = 403; fields = [] }, 3)))
    ⊎ (MayPass some (codes "https://id" ∷ []) (write own)
        × IsCarried
            (codes "/api/action")
            (record { status = 204; fields = [] })
            (protect_browser_requests some (codes "https://id" ∷ []) count (write own) 3).0
        × ((protect_browser_requests some (codes "https://id" ∷ []) count (write own) 3).1 ≡ 4))
protect_browser_requests_cases_example =
    protect_browser_requests_cases some (codes "https://id" ∷ []) count (write own) 3
