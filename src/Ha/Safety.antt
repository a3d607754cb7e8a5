-- ===== src/Ha/Safety.antt =====
-- Why there are never two active panels: one voter and all panel nodes as a step relation, and the
-- count of votes.
pub mod System
pub mod Invariant
pub mod Frame
pub mod Nodes
pub mod Votes
pub mod Exclusion
pub mod Majority
