-- ===== src/Accounts.antt =====
-- cowrie/src/cowrie/shell/pwd.py: the accounts and groups that the honeypot shows, read from the files
-- /etc/passwd and /etc/group of its file system.
pub mod Numbers
pub mod Passwd
pub mod Group
pub mod Entries
mod Tests
