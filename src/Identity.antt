-- ===== src/Identity.antt =====
-- services/api/src/identity: who makes a request.
pub mod Principal
pub mod Trusted
pub mod Oidc
pub mod Runtime
pub mod Tests
