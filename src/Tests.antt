-- ===== src/Tests.antt =====
-- The theorems at concrete inputs.
pub mod Samples
pub mod Wire
pub mod Messages
pub mod Ranges
pub mod Matching
pub mod Hops
pub mod Cache
pub mod Peers
pub mod Members
pub mod Walk
pub mod Handover
pub mod Joining
pub mod Rounds
pub mod Rendezvous
