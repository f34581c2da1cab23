-- ===== src/Crdt.antt =====
-- pkg/crdt/lwwmap.go: the last-writer-wins map and the version vectors of anti-entropy.
pub mod Clock
pub mod LwwMap
pub mod VersionVector
