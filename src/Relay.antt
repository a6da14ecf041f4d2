-- ===== src/Relay.antt =====
-- apps/relay/src/relay.ts: the relay, which multiplexes frames between the browsers and the daemon of
-- a channel.
pub mod Cache
pub mod Heartbeat
pub mod Connections
pub mod Hub
pub mod Browser
pub mod Daemon
pub mod Socket
pub mod Effects
pub mod Isolation
pub mod Delivery
pub mod Reconcile
pub mod Offline
pub mod Presence
pub mod Reachable
mod Tests
pub mod Sample
mod SocketTests
