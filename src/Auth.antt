-- ===== src/Auth.antt =====
-- internal/auth, and of internal/apisrv revocation.go and share.go: who may use the API server.
pub mod Tokens
pub mod Access
pub mod Revocation
pub mod Sharing
