-- ===== src/Examples.antt =====
-- Concrete runs of the modelled operations.
pub mod Rows
mod Graph
mod Queue
mod Worker
mod Gate
mod Runner
mod Loop
mod Cycle
mod Busy
mod Abandoned
mod Monitor
mod Overlap
mod Startup
mod Turns
mod Cancel
mod System
mod Delay
mod Serialization
mod Stall
