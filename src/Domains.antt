-- ===== src/Domains.antt =====
-- app/utils/domains.py: normalising one domain name and a list of them.
-- `str.lower` and `ipaddress.ip_address` are the tables of the runtime: parameters.
pub mod Shape
pub mod Split
pub mod Examples
