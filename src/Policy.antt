-- ===== src/Policy.antt =====
-- packages/policy/src: what a credential may do and what its harness sees of a conversation.
pub mod Pipeline
pub mod Permissions
pub mod Reveal
pub mod Materiality
