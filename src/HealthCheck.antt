-- ===== src/HealthCheck.antt =====
-- healthcheck/: which replica probes.
pub mod Leader
