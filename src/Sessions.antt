-- ===== src/Sessions.antt =====
-- packages/sessions/src: credentials, their scopes and their lifecycle.
pub mod Materiality
pub mod Credentials
pub mod Policies
pub mod Service
pub mod Pending
pub mod Operators
