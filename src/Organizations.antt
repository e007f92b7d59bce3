-- ===== src/Organizations.antt =====
-- services/api/src/organizations: memberships, and access to an organization.
pub mod Membership
pub mod Authorization
pub mod Postgres
pub mod Tests
