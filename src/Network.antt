-- ===== src/Network.antt =====
-- The filter of outbound connections (cowrie/src/cowrie/core/network.py).
pub mod Ipv4
pub mod Ipv6
pub mod Addresses
pub mod Filter
mod Tests
pub mod Octets
pub mod Ranges
pub mod Ends
pub mod Sound
