-- ===== src/Client.antt =====
-- cowrie/src/cowrie/pool_interface: client.py, the connection to the pool, and handler.py, which
-- sets the pool up.
pub mod Connection
pub mod Handler
