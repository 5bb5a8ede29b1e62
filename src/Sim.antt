-- ===== src/Sim.antt =====
-- src/runtime/simulator: the hosts of a simulation, and the world that lets its time pass.
pub mod Host
pub mod Epochs
pub mod World
pub mod Clock
pub mod Time
pub mod Sleeping
pub mod Network
pub mod Answers
mod Tests
