-- ===== src/Solana/Client.antt =====
-- The client, packages/splits-sdk/src/client/.
pub mod Results
pub mod Messages
pub mod Failures
pub mod Transaction
pub mod Shared
pub mod Ensure
pub mod Bundle
pub mod Update
pub mod Close
pub mod Execute
