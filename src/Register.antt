-- ===== src/Register.antt =====
-- src/register.rs.
pub mod Address
pub mod Host
pub mod Wireguard
pub mod Handler
pub mod Rows
pub mod Taken
pub mod Lifecycle
