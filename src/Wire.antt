-- ===== src/Wire.antt =====
-- The byte formats of the pool's protocol: what pool_server.py (cowrie/src/backend_pool) and
-- client.py (cowrie/src/cowrie/pool_interface) use of Python's `struct`, in network order, and of
-- the UTF-8 codec. The language's library has no lines in the repository to map.
pub mod Struct
pub mod Utf8
