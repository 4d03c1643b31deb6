-- ===== src/Oauth/Examples.antt =====
-- Tests of the endpoints on the sample of Oauth/Sample, and the theorems applied to it.
use authere.Base.{◌≡◌, ◌⊎◌, refl, true, false, none, some, List, arith}
use authere.Base.Text.{Text, codes}
use authere.Base.Errors.{ok}
use authere.User.{User}
use authere.Session.{Claims}
use authere.Session.Tokens.{get_roles}
use authere.Oidc.Codes.Exchange.{IsKeyed}
use authere.Oidc.Token.{OidcAccessClaims, parse_scope, verify_oidc_access_token}
use authere.Oauth.Html.{html_escape, html_escape-eq-once}
use authere.Oauth.{OAuthError, append_query}
use authere.Oauth.Authorize.{redirect, failed, Client, login_redirect, authorize}
use authere.Oauth.Exchange.{token_of}
use authere.Oauth.UserInfo.{bearer, userinfo}
use authere.Oauth.Logout.{EndSessionQuery, Party, read_party, end_session_impl, end_session_post}
use authere.Oauth.Trusted.{IsTrusted}
use authere.Oauth.Granted.{IsGranted, authorize_issues, authorize_redirects}
use authere.Oauth.Issued.{IsIssued, token_of-IsIssued}
use authere.Oauth.Disclosed.{IsStanding, IsWithin, userinfo_discloses}
use authere.Oauth.SignedOut.{
  IsLogout, IsPresented, browser_session, end_session_impl_own, end_session_post_foreign,
}
use authere.Oauth.Sample.{
  oauth, crates, db, headers, no_headers, query, fresh, draw, authorized, form, response,
  bearer_headers, info,
}

oauth_tests :
    ((authorize crates query headers none draw 1050 db).reply
      ≡ redirect (codes "https://app/cb?code=k&state=s"))
    × ((authorize crates query no_headers (some (codes "/x")) draw 1050 db).reply
        ≡ redirect (codes "/login?redirect_uri=/x"))
    × ((token_of crates no_headers form (codes "o1") 1100 authorized).0 ≡ ok response)
    × (userinfo crates bearer_headers 1200 authorized ≡ some info)
unfolding oauth
oauth_tests = (refl, refl, refl, refl)

authorize_issues_example :
    ((authorize crates query headers none draw 1050 db).db.codes ≡ db.codes)
    ⊎ IsGranted crates query headers draw 1050 db (authorize crates query headers none draw 1050 db)
authorize_issues_example = authorize_issues crates query headers none draw 1050 db

authorize_redirects_example :
    ((e : OAuthError) × ((authorize crates query headers none draw 1050 db).reply ≡ failed e))
    ⊎ ((authorize crates query headers none draw 1050 db).reply ≡ login_redirect crates none)
    ⊎ ((client : Client) × IsTrusted query db.applications client
        × (params : List (Text × Text)) × ((authorize crates query headers none draw 1050 db).reply
            ≡ redirect (append_query crates.urlencode client.redirect_uri params)))
authorize_redirects_example = authorize_redirects crates query headers none draw 1050 db

authorized-IsKeyed : IsKeyed authorized.codes
unfolding oauth
authorized-IsKeyed hash = ground arith

token_of-IsIssued_example :
    IsIssued crates no_headers form
      (codes "o1")
      1100
      authorized
      (token_of crates no_headers form (codes "o1") 1100 authorized).1
      response
unfolding oauth
token_of-IsIssued_example =
    token_of-IsIssued crates no_headers form (codes "o1") 1100 authorized response
      authorized-IsKeyed refl

userinfo_discloses_example :
    (token : Text) × (claims : OidcAccessClaims) × (user : User) × (bearer crates bearer_headers
      ≡ some token)
    × (verify_oidc_access_token crates.signer token 1200 ≡ ok claims)
    × IsStanding crates claims authorized user
    × IsWithin crates (parse_scope claims.scope) user (get_roles user.id authorized.sessions) info
unfolding oauth
userinfo_discloses_example = userinfo_discloses crates bearer_headers 1200 authorized info refl

abbrev leave : EndSessionQuery
leave = record {
  id_token_hint = none;
  client_id = some (codes "c");
  post_logout_redirect_uri = some (codes "https://app/out");
  state = none;
}

end_session_impl_own_example :
    ((end_session_impl crates leave true false fresh headers 1300 db).db ≡ db)
    ⊎ ((end_session_impl crates leave true false fresh headers 1300 db).db
        ≡ record db { sessions = (browser_session crates leave true fresh headers 1300 db).store })
    ⊎ ((party : Party) × (session : Claims) × (read_party crates leave db.applications ≡ ok party)
        × ((browser_session crates leave true fresh headers 1300 db).result ≡ ok (some session))
        × IsLogout crates leave true party 1300 session
            (record db {
              sessions = (browser_session crates leave true fresh headers 1300 db).store;
            })
            (end_session_impl crates leave true false fresh headers 1300 db).db)
end_session_impl_own_example = end_session_impl_own crates leave true fresh headers 1300 db

end_session_post_foreign_example :
    ((end_session_post crates leave fresh headers 1300 db).db ≡ db)
    ⊎ ((party : Party) × (session : Claims) × (read_party crates leave db.applications ≡ ok party)
        × IsPresented crates leave false party headers 1300 db session
        × IsLogout crates leave false party 1300 session db
            (end_session_post crates leave fresh headers 1300 db).db)
unfolding oauth
end_session_post_foreign_example = end_session_post_foreign crates leave fresh headers 1300 db refl

html_escape-eq-once_example : html_escape (codes "a<b>&'") ≡ codes "a&lt;b&gt;&amp;&#39;"
html_escape-eq-once_example = html_escape-eq-once (codes "a<b>&'")
