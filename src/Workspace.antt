-- ===== src/Workspace.antt =====
-- services/api/src/workspace: the workspace of an organization.
pub mod TeamStatus
pub mod Settings
pub mod Profile
pub mod OrganizationProfile
pub mod Preferences
pub mod Team
pub mod Entry
pub mod Runtime
