-- ===== src/Auth.antt =====
-- internal/auth: the scopes of a token and the token's verification.
pub mod Scopes
pub mod Tokens
pub mod Keys
pub mod Authorize
