-- ===== src/Handlers.antt =====
-- The request handlers of src/main.rs.
pub mod Session
pub mod GetApps
pub mod LaunchApp
pub mod AttachApp
pub mod Tests
