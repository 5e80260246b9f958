-- ===== src/Modulation.antt =====
-- The modulation library.
pub mod Transport
pub mod EventQueue
pub mod Replace
pub mod Rebuild
pub mod Routings
pub mod Schedule
pub mod Scopes
