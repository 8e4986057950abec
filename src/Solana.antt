-- ===== src/Solana.antt =====
-- The Solana SDK, packages/splits-sdk.
pub mod Types
pub mod Recipients
pub mod Network
pub mod Action
pub mod Derive
pub mod Reads
pub mod Detect
pub mod Equality
pub mod Atas
pub mod Instructions
pub mod Labels
pub mod Client
mod Tests
