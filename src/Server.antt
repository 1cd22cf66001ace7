-- ===== src/Server.antt =====
-- cowrie/src/backend_pool/pool_server.py: the factory and the protocol that answers the proxy. A
-- message is handled whole; what it changed before an exception stays changed.
pub mod Packing
pub mod Defs
