-- ===== src/Session.antt =====
-- Refresh-token sessions: the table (internal/repository/postgres/refresh_token.go), the issuance
-- (internal/service/token.go) and the rotation (internal/service/auth.go).
pub mod Store
pub mod Tokens
pub mod World
pub mod Refresh
pub mod Opening
pub mod Auth
pub mod Password
mod Tests
