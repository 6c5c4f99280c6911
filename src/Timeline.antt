-- ===== src/Timeline.antt =====
-- VirtualTimeline.h and VirtualTimeline.cpp: the virtual clocks and the controllers that commit the
-- progress of the threads to them.
pub mod Virtual
pub mod Multicore
pub mod Controllers
mod Tests
