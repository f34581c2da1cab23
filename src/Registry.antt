-- ===== src/Registry.antt =====
-- pkg/registry: the replicated metadata of backends and edges, and the live metrics.
pub mod Models
pub mod Encoding
pub mod Store
