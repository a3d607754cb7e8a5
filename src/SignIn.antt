-- ===== src/SignIn.antt =====
-- The throttle of failed sign-ins and the sessions of panel/lib/auth.mjs.
pub mod Throttle
pub mod Sessions
pub mod Limits
pub mod Window
mod Checks
