-- ===== src/Api.antt =====
-- internal/api: the handlers behind the routes, without HTTP and JSON.
pub mod Clusters
