-- ===== src/Auth.antt =====
-- Sign-in, browser sessions, native token pairs and devices.
pub mod Rows
pub mod Browser
pub mod Native
pub mod Checks
pub mod Devices
pub mod Steps
mod Tests
