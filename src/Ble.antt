-- ===== src/Ble.antt =====
-- ble.py: the task that keeps a device connected, and the tasks together.
pub mod Task
pub mod Fleet
pub mod Invariant
pub mod Stop
pub mod Shutdown
pub mod Hold
pub mod Manager
