-- ===== src/Monitoring.antt =====
-- engine/src/hypernet/monitoring/: the status server.
pub mod Http
