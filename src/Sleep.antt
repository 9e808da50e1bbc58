-- ===== src/Sleep.antt =====
-- sleep.c: the timer that pauses the player.
pub mod Timer
pub mod Armed
pub mod Tests
