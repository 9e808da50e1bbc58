-- ===== src/Player.antt =====
-- player.c and player.h: the player over GStreamer, the queue, the random picks and the history.
pub mod State
pub mod Tracks
pub mod Backend
pub mod Control
pub mod Step
pub mod Picks
pub mod Timers
pub mod Safety
pub mod Records
pub mod Crash
pub mod Tests
