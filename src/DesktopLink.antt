-- ===== src/DesktopLink.antt =====
-- services/api/src/device-link: the exchange that links a desktop to a tenant.
pub mod Record
pub mod Memory
pub mod Checks
pub mod Service
pub mod Postgres
pub mod Runtime
pub mod Controller
pub mod Tests
