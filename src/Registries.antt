-- ===== src/Registries.antt =====
-- src/vex/registries: who holds which monitor, who waits for it, and which threads there are.
pub mod Lock
pub mod Reentrant
pub mod Object
pub mod Threads
mod Tests
