-- ===== src/Evm.antt =====
-- The EVM SDK, packages/splits-sdk-evm/src/.
pub mod Types
pub mod Action
pub mod Helpers
pub mod Failures
pub mod Ensure
pub mod Execute
mod Tests
