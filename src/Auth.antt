-- ===== src/Auth.antt =====
-- internal/auth: rate limits, pairing codes, and the store of OAuth clients, codes and tokens.
pub mod Limits
pub mod Random
pub mod Pairing
pub mod Resource
pub mod Redirects
pub mod Store
pub mod Assertion
pub mod Server
pub mod Scopes
