-- ===== src/Admin.antt =====
-- packages/cli/src/admin: the reads of messages that an owner approves for an admin, for a time.
pub mod Disclosure
pub mod Elevation
pub mod Rollback
