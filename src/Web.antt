-- ===== src/Web.antt =====
-- The web layer: logins in the signed cookie (app/dependencies/web.py) and the protection against
-- forged requests (app/middleware/csrf.py).
pub mod Session
pub mod Csrf
pub mod Redirect
pub mod Flash
mod Examples
