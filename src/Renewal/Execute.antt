-- ===== src/Renewal/Execute.antt =====
-- `execute` of app/services/renewal.py and the four ways to renew that it chooses from.
pub mod Wait
pub mod Verify
pub mod Paths
pub mod Run
pub mod Actions
pub mod Parts
pub mod ApiOnly
pub mod Backed
pub mod Success
pub mod Guards
pub mod Lock
pub mod Polling
pub mod PurgeGuard
