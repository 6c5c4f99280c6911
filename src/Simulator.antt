-- ===== src/Simulator.antt =====
-- The queueing network simulator, src/cinqs: its lists, queues, nodes and its diary of events.
pub mod Lists
pub mod Customers
pub mod Queues
pub mod Nodes
pub mod Diary
mod Tests
