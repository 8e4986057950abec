-- ===== src/Tabs.antt =====
-- The tabs SDK and application, packages/tabs-sdk and apps/tabs.
pub mod Action
pub mod Message
pub mod Base58
pub mod Fetch
pub mod Derive
pub mod ApiKey
pub mod Worker
pub mod Discovery
pub mod Builders
pub mod History
pub mod Squads
mod Tests
