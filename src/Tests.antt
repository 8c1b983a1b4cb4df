-- ===== src/Tests.antt =====
-- Every theorem that has conditions, at a concrete input where they hold.
pub mod Toy
pub mod Common
pub mod Servers
pub mod Clients
pub mod Channel
pub mod Traces
pub mod Handshake
pub mod Loading
pub mod Slots
pub mod Renewal
