-- ===== src/Oidc.antt =====
-- server/src/oidc: the OpenID Connect provider.
pub mod Codes
pub mod Token
