-- ===== src/Auth.antt =====
-- sdk/auth: the pure parts of the optional OAuth target.
pub mod Base64Url
pub mod ConstantTime
pub mod WwwAuth
pub mod OAuthUrl
