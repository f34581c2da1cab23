-- ===== src/Tests.antt =====
-- Runs on concrete inputs: for each theorem with hypotheses, data at which these hold.
pub mod Crdt
pub mod Breaker
pub mod Cache
pub mod Registry
pub mod Gossip
pub mod Selector
pub mod Health
pub mod Proxy
pub mod Serving
pub mod Dns
