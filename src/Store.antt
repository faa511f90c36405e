-- ===== src/Store.antt =====
-- internal/store: what the dashboard keeps in SQLite.
pub mod Users
pub mod Clusters
pub mod Metrics
