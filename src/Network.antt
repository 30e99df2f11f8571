-- ===== src/Network.antt =====
-- src/network: the sockets of both networks, the network over one binding and the routed network.
pub mod Types
pub mod Clients
pub mod Simple
pub mod Virtual
pub mod Interface
pub mod Example
pub mod Tests
