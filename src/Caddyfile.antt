-- ===== src/Caddyfile.antt =====
-- app/utils/caddyfile.py: the text of a Caddyfile, its directives, blocks and sites.
pub mod Lexical
pub mod Split
pub mod Build
pub mod Queries
pub mod Sites
pub mod Parse
pub mod Inject
mod Examples
