-- ===== src/Seals.antt =====
-- packages/seals/src: the signed, chained statements of what a credential may do in a chat.
pub mod Delta
pub mod Republish
pub mod Manager
pub mod Chain
pub mod History
