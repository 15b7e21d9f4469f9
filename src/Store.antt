-- ===== src/Store.antt =====
-- internal/store
pub mod Like
pub mod Database
pub mod Secrets
pub mod Keys
pub mod Operators
pub mod Opening
pub mod Startup
