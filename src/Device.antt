-- ===== src/Device.antt =====
-- solardevice.py.
pub mod Definition
pub mod Filter
pub mod Entities
pub mod Getters
pub mod Setters
pub mod Settled
pub mod Notify
pub mod Limits
pub mod Publish
pub mod Plugins
