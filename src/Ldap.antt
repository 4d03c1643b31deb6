-- ===== src/Ldap.antt =====
-- server/src/ldap: the LDAP server.
pub mod Ber
pub mod Dn
pub mod Entry
pub mod Filter
pub mod Search
pub mod Bind
mod Examples
