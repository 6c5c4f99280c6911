-- ===== src/Profiler.antt =====
-- src/vex/profiler with the method log of a thread: what a profiled program's methods take.
pub mod Measures
pub mod Log
pub mod Total
pub mod Accounts
pub mod Merging
mod Tests
