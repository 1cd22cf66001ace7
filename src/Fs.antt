-- ===== src/Fs.antt =====
-- cowrie/src/cowrie/shell/fs.py: the file system that the honeypot shows to an attacker.
pub mod Paths
pub mod Node
pub mod Lookup
pub mod Changes
pub mod Attributes
pub mod Glob
pub mod Uploads
pub mod Normal
pub mod Limits
mod Tests
