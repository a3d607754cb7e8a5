-- ===== src/Store.antt =====
-- The panel's database, panel/lib/store.mjs.
pub mod State
pub mod Pending
pub mod Lookup
mod Checks
