-- ===== src/Passkeys.antt =====
-- Passkeys: the WebAuthn checks of panel/lib/webauthn.mjs.
pub mod Outcome
pub mod Base64
pub mod Cbor
pub mod AuthData
pub mod Key
pub mod ClientData
pub mod Ceremony
pub mod Sound
pub mod Challenges
pub mod Party
pub mod Enrol
mod Checks
