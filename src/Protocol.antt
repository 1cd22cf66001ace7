-- ===== src/Protocol.antt =====
-- The two ends of the pool's protocol together: cowrie/src/cowrie/pool_interface/client.py and
-- cowrie/src/backend_pool/pool_server.py.
pub mod Exchange
pub mod Guests
pub mod Exposed
mod Tests
