-- ===== src/Server/Dispatch.antt =====
-- sdk/server/src/server.cpp: how a request is handled.
pub mod Parts
pub mod Wire
pub mod Replies
pub mod Branches
pub mod Methods
pub mod Handle
pub mod Responses
pub mod Fits
pub mod Answered
pub mod Stamped
mod Tests
