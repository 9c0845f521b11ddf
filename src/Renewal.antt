-- ===== src/Renewal.antt =====
-- app/services/renewal.py: planning and executing the renewal of a certificate.
-- What the service calls (supervisor, Admin API, storage, clock, lock, event callback) is the
-- record `Services` of answers, each of which may depend on everything that was called before.
pub mod Defs
pub mod Effects
pub mod Plan
pub mod Execute
mod Examples
