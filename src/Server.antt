-- ===== src/Server.antt =====
-- RaftServer.h and RaftServer.cpp. A method takes the server and returns the new one, or the fault
-- in which the process ends.
pub mod State
pub mod Transitions
pub mod Commit
pub mod Handlers
pub mod Votes
pub mod Events
pub mod Frames
pub mod Timers
pub mod Start
pub mod Config
pub mod Handover
pub mod Invariant
pub mod Preservation
pub mod Replication
pub mod Election
