-- ===== src/Sync/Recovery.antt =====
-- Recovery of personal data: resolution of conflicts and restoration of old versions, the second half
-- of testpaper_backend/services/sync_conflicts.py.
pub mod Versions
pub mod Restoring
pub mod Plans
pub mod Resolving
pub mod Replays
pub mod History
pub mod Listing
mod Tests
