-- ===== src/Protocol/RoundTrip.antt =====
-- What is written is read back.
pub mod Texts
pub mod Requests
pub mod Messages
