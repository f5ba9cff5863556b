-- ===== src/Attest.antt =====
-- proxy/src/attest.rs: verification of attestation tokens and the replay cache.
pub mod Error
pub mod Window
pub mod NonceCache
pub mod Crates
pub mod Token
pub mod Verifier
pub mod Setup
pub mod Binding
pub mod Mint
pub mod Replay
pub mod OneUse
