-- ===== src/Auth/WwwAuth.antt =====
-- sdk/auth: the challenges of a `WWW-Authenticate` header, and what a client makes of them.
pub mod Scan
pub mod Parser
pub mod Decision
pub mod Shorter
pub mod Total
pub mod Scanned
pub mod Parameters
mod Tests
