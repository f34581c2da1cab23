-- ===== src/Dns.antt =====
-- pkg/dnsplugin: the zone of the mesh, and the answers to queries about it.
pub mod Records
pub mod Countries
pub mod Zone
pub mod Edges
pub mod Limiter
pub mod Names
pub mod Answers
pub mod Plugin
