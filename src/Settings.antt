-- ===== src/Settings.antt =====
-- The runtime settings: app/services/runtime_settings.py and app/utils/admin_targets.py.
pub mod Admin
pub mod Values
pub mod Location
pub mod Candidates
mod Examples
