-- ===== src/Auth.antt =====
-- Logins: the form token of app/utils/hidden_captcha.py, the password policy of app/services/auth.py,
-- and the second factor: app/utils/otp.py, the one-time-password rows of app/repositories/users.py, and
-- the methods of app/services/auth.py that use them.
pub mod Captcha
pub mod Password
pub mod Otp
pub mod Users
pub mod Service
pub mod Replay
pub mod Recovery
pub mod Lifecycle
mod Examples
