-- ===== src/Tests.antt =====
-- Runs of the model at concrete states, and the theorems at concrete inputs.
pub mod Memory
pub mod Nodes
pub mod Log
pub mod Kv
pub mod Append
pub mod Vote
pub mod Leader
pub mod Run
pub mod Packet
pub mod Pipe
pub mod Network
pub mod Start
pub mod Read
pub mod Wire
pub mod Storage
pub mod Clerk
pub mod Exchange
