-- ===== src/Heartbeat.antt =====
-- src/heartbeat.rs: the task that keeps one heartbeat for each device (`heartbeat`), and the loop
-- of a device's heartbeat (the task that `heartbeat_thread` spawns).
pub mod Manager
pub mod Thread
mod Tests
