-- ===== src/Threads.antt =====
-- src/vex/threads: the state that the framework keeps of one thread.
pub mod Code
pub mod Timers
pub mod Statistics
pub mod IoHandler
pub mod Scheduling
pub mod State
pub mod Aggregate
pub mod Samples
mod Tests
