-- ===== src/Sync.antt =====
-- The synchronisation services of a personal account.
pub mod Types
pub mod Rows
pub mod Tables
pub mod Attachments
pub mod Conflicts
pub mod Apply
pub mod Push
pub mod Frame
pub mod Samples
pub mod Compaction
pub mod Cursors
pub mod Read
pub mod Recovery
