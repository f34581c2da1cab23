-- ===== src/Gossip.antt =====
-- pkg/gossip/service.go: the messages of the gossip topics, and the anti-entropy exchange.
pub mod Envelope
pub mod Topics
pub mod Sync
