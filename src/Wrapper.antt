-- ===== src/Wrapper.antt =====
-- crates/wrapper: the command line program that fetches a capability and runs the download.
pub mod Session
pub mod Runner
pub mod Browser
pub mod Api
pub mod Keystore
pub mod Config
pub mod Files
pub mod Flow
pub mod Main
pub mod Tests
