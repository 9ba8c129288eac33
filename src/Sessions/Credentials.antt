-- ===== src/Sessions/Credentials.antt =====
-- packages/sessions/src/credential-manager.ts: the store of issued credentials. The state is an
-- explicit argument and each operation returns the new one; times are milliseconds and the clock is
-- read once for each call; the hash of a policy, new ids and new tokens are arguments.
pub mod Store
pub mod Ops
pub mod Tokens
pub mod Status
pub mod Runs
pub mod Bounds
pub use Store.*
pub use Ops.*
