-- ===== src/Ha/Panel.antt =====
-- createHa of panel/lib/ha.mjs: the election side of a panel node.
pub mod State
pub mod Lease
pub mod Election
pub mod Ballot
pub mod Rules
