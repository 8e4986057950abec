-- ===== src/Tabs/Squads.antt =====
-- apps/tabs/src/react-app/lib/squads.ts: what the application puts on the tabs SDK.
pub mod Confirmation
pub mod Withdraw
