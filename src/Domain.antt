-- ===== src/Domain.antt =====
-- The domain package: who stands behind an endpoint.
pub mod Owner
pub mod Related
mod Tests
