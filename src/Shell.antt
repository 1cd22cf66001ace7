-- ===== src/Shell.antt =====
-- The shell that an attacker types into (cowrie/src/cowrie/shell/honeypot.py), and how the protocol runs its
-- commands (cowrie/src/cowrie/shell/protocol.py).
pub mod Words
pub mod Stages
pub mod Run
pub mod Split
pub mod Pipeline
pub mod Sequence
pub mod Prompt
pub mod Home
pub mod Find
mod Tests
pub mod Found
pub mod Subst
pub mod Line
pub mod Scan
pub mod Shrinks
pub mod Reads
pub mod Plain
