-- ===== src/Queue.antt =====
-- src/vex/ds: the queue of the threads that can run.
pub mod Heap
pub mod Priority
pub mod Thread
mod Tests
