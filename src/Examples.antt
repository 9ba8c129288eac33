-- ===== src/Examples.antt =====
-- Concrete runs of the modelled code: each theorem with a hypothesis or a variable, applied at an
-- input that its conditions admit.
pub mod Credentials
pub mod Access
pub mod Delivery
pub mod Seals
pub mod Operators
pub mod Server
pub mod Admin
pub mod Ids
pub mod Verifier
