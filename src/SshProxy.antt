-- ===== src/SshProxy.antt =====
-- The SSH proxy's reading of the packets that go through it (cowrie/src/cowrie/ssh_proxy/protocols).
pub mod Reader
pub mod Channels
pub mod Messages
pub mod Relay
pub mod Withheld
pub mod Delivered
pub mod Conversation
pub mod Term
pub mod Editor
pub mod Typing
pub mod Keystrokes
pub mod Within
mod Tests
mod RelayTests
