-- ===== src/Database.antt =====
-- Database failover: the GTID sets of shared/mysql-ha.mjs.
pub mod Gtid
mod Checks
