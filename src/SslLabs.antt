-- ===== src/SslLabs.antt =====
-- app/utils/ssllabs.py: hosts that may be scanned, the schedule, and how grades and statuses show.
pub mod Host
pub mod Schedule
pub mod Status
mod Examples
