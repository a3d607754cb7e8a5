-- ===== src/Ha.antt =====
-- Panel failover: timing, the voter, the candidate.
pub mod Timing
pub mod Version
pub mod Wire
pub mod Panels
pub mod Voter
pub mod Panel
pub mod Safety
mod Examples
mod Checks
mod LeaderChecks
