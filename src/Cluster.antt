-- ===== src/Cluster.antt =====
-- internal/cluster: the registry of edges and live sessions.
pub mod Registry
