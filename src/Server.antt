-- ===== src/Server.antt =====
-- sdk/server: the embeddable server.
pub mod TaskManager
pub mod Registry
pub mod AuthChallenge
pub mod Auth
pub mod Subscriptions
pub mod Requests
pub mod Dispatch
