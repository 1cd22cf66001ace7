-- ===== src/Auth.antt =====
-- cowrie/src/cowrie/core/auth.py: who may log in. UserDB reads rules from a file, in order;
-- AuthRandom lets an address in after a random number of attempts.
pub mod Strings
pub mod UserDb
pub mod AuthRandom
pub mod Rules
pub mod Attempts
pub mod Counting
mod Tests
