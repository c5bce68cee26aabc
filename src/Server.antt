-- ===== src/Server.antt =====
-- The gateway, crates/server.
pub mod Money
pub mod Store
pub mod Issuer
pub mod Release
pub mod Treasury
pub mod Captcha
pub mod Config
pub mod State
pub mod PoolWatch
pub mod Http
pub mod Main
pub mod Tests
