-- ===== src/Pool.antt =====
-- cowrie/src/backend_pool/pool_service.py, class PoolService: the pool of virtual machines that the
-- proxy hands to attackers. The data and the methods, then what is proved of them.
pub mod Guest
pub mod Service
pub mod Producer
pub mod Consumers
pub mod Connectivity
pub mod Removal
pub mod Soundness
pub mod Choice
pub mod Requests
pub mod Addresses
pub mod Invariant
pub mod Reachable
pub mod Releases
pub mod Passes
pub mod Refusals
pub mod Cleaning
pub mod Stays
mod Tests
