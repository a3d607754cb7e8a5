-- ===== src/Ha/Voter.antt =====
-- createVoter of shared/ha-voter.mjs.
pub mod State
pub mod Learn
pub mod Reply
pub mod Lease
pub mod Grants
pub mod Disk
pub mod Nodes
