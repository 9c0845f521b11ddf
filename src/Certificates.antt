-- ===== src/Certificates.antt =====
-- app/services/certificates.py: the state of a certificate, which names it covers, and the choice
-- of the best certificate for a domain. X.509 parsing and the walk over the storage directory are
-- not modelled: their results, lists of `ParsedCertificate`, are inputs.
pub mod Defs
pub mod Cover
pub mod Coverage
pub mod Dates
pub mod Find
mod Examples
