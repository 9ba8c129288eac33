-- ===== src/Ws.antt =====
-- packages/ws/src: the transport to a harness, with numbered frames that can be replayed.
pub mod Buffer
pub mod Sequence
pub mod Connection
pub mod Server
