-- ===== src/WebTrap.antt =====
-- The second honeypot, for HTTP: its view of who makes requests (WebTrap/webtrap/session.py).
pub mod Session
pub mod Counts
pub mod Recent
pub mod Visits
mod Tests
