-- ===== src/Limits.antt =====
-- testpaper_backend/services/rate_limit.py and testpaper_backend/services/task_access.py: how often a
-- client may call, and whose tasks a user may see.
pub mod RateLimit
mod Tests
