-- ===== src/Events.antt =====
-- app/services/events.py: the event bus and the streams of its subscribers, on the one event loop that
-- the program runs them on; `_capture_loop` only checks that.
pub mod Bus
pub mod Limits
pub mod Steps
pub mod Reach
mod Examples
