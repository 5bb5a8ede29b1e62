-- ===== src/Util.antt =====
-- src/util: the parts of it that the runtime and the nodes share.
pub mod Search
pub mod Monotone
pub mod Halving
mod Tests
