-- ===== src/Commands.antt =====
-- Commands of the honeypot's shell (cowrie/src/cowrie/commands/fs.py) over its file system.
pub mod Context
pub mod Directories
pub mod Removal
pub mod Lines
pub mod Tail
pub mod Kept
pub mod Moves
mod Tests
