-- ===== src/Env.antt =====
-- Environment variables as a .env file has them, shared/env.mjs.
pub mod Quote
pub mod RoundTrip
pub mod Merge
pub mod Lines
mod Checks
