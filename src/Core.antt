-- ===== src/Core.antt =====
-- The core library.
pub mod Rcu
