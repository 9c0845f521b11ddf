-- ===== src/Supervisor.antt =====
-- app/services/supervisor.py: restarting, reloading and inspecting Caddy through systemd, Docker or
-- a script. The child process is an input: what it printed, its exit status, or why it failed.
pub mod Defs
pub mod Control
pub mod ScriptPath
pub mod Names
mod Examples
