-- ===== src/Jobs.antt =====
-- The background jobs and their queue, panel/lib/jobs.mjs.
pub mod State
pub mod Admit
pub mod Life
pub mod Control
pub mod Tables
pub mod Sound
pub mod Operations
pub mod Run
pub mod Order
pub mod Progress
pub mod Slots
pub mod Moves
pub mod Records
mod Checks
