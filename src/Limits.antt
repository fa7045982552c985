-- ===== src/Limits.antt =====
-- The two limiters, which count per client address in windows of one minute: `RateLimitState` of
-- src/server/middleware.rs and `DdosProtection` of src/audit.rs. An `Instant` is a number of
-- nanoseconds; `duration_since` stops at zero, as the subtraction of ℕ does.
pub mod Window
pub mod Rate
pub mod Ddos
