-- ===== src/State.antt =====
-- src/state and include/tanh/state: paths, groups and the parameters at the root.
pub mod Paths
pub mod Groups
pub mod Dict
pub mod Values
pub mod Root
pub mod Parameters
pub mod Samples
pub mod Listeners
