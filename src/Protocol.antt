-- ===== src/Protocol.antt =====
-- sdk/protocol: JSON-RPC messages, over an interface of the JSON library.
pub mod Json
pub mod Types
pub mod Limits
pub mod Decode
pub mod Encode
pub mod Ids
pub mod RoundTrip
pub mod Samples
mod Tests
