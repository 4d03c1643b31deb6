-- ===== src/Forward.antt =====
-- Forward authentication: the reverse-proxy login flow of server/src/handlers/auth.rs and
-- server/src/user/auth/forward.rs.
pub mod Path
pub mod Handoff
pub mod Target
pub mod Verify
pub mod Flow
pub mod Allowed
pub mod Asked
pub mod Landed
mod Examples
