-- ===== src/Ds.antt =====
-- ds/: the sharded map and the index tree.
pub mod ConcurrentMap
pub mod Art
