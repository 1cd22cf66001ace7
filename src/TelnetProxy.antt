-- ===== src/TelnetProxy.antt =====
-- The Telnet proxy's reading of the packets that go through it (cowrie/src/cowrie/telnet_proxy/handler.py).
pub mod Strings
pub mod Handler
pub mod Checked
pub mod Accepted
pub mod Order
mod Tests
