-- ===== src/TtyLog.antt =====
-- The recording of a session (cowrie/src/cowrie/core/ttylog.py) and its replay (cowrie/src/cowrie/scripts/playlog.py).
pub mod Record
pub mod Replay
pub mod Written
pub mod Terminal
pub mod Session
pub mod Recorded
pub mod Played
mod Tests
