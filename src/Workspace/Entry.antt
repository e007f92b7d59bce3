-- ===== src/Workspace/Entry.antt =====
-- workspace-bootstrap.ts with workspace.controller.ts, and workspace-directory.ts with
-- workspace-directory.controller.ts: how a user enters a workspace.
pub mod Entered
pub mod Tests
use vsn_voice_ai.Prelude.{
  ℕ, Bool, true, false, not, Option, none, some, List, [], ◌∷◌, ltb, length, map, if◌then◌else◌,
}
use vsn_voice_ai.Js.Text.{Text, text, is_blank}
use vsn_voice_ai.Js.Result
use vsn_voice_ai.Js.Result.{Result, ok, err, map_err}
use vsn_voice_ai.Js.Exec.{Exec, pure, throw, lift, guard, catching, ◌>>=◌, ◌>>◌}
use vsn_voice_ai.Identity.Principal.{AuthenticatedPrincipal}
use vsn_voice_ai.Identity.Trusted.{TrustedPrincipalResolution}
use vsn_voice_ai.Organizations.Membership.{OrganizationMembership, MembershipStatus}
use vsn_voice_ai.Organizations.Authorization.{AuthorizationContext, authorize_tenant_access}
use vsn_voice_ai.Organizations.Postgres.{
  DirectoryFailure, query_failed, OrganizationMembershipDirectoryEntry,
  OrganizationMembershipDirectorySnapshot, max_organization_memberships_per_directory,
}
use vsn_voice_ai.Workspace.TeamStatus
use vsn_voice_ai.Workspace.TeamStatus.{
  TeamFailure, invalid_argument, denied, HttpError, bad_request, forbidden, service_unavailable,
  unmapped, require_principal,
}
use vsn_voice_ai.Workspace.Team.{found_membership}

-- WorkspaceAuthorizationSummary. The areas of the response are unloaded constants, left out.
pub record WorkspaceAuthorizationSummary : Type 0 where
  pub organization_id : Text
  pub membership_id : Text
  pub roles : List Text
  pub permissions : List Text

abbrev pub to_summary : AuthorizationContext → WorkspaceAuthorizationSummary
to_summary authorization = record {
  organization_id = authorization.organization_id;
  membership_id = authorization.membership_id;
  roles = authorization.roles;
  permissions = authorization.permissions;
}

unfoldable pub create_workspace_bootstrap :
    Option AuthenticatedPrincipal
    → Option OrganizationMembership
    → Text
    → Result TeamFailure WorkspaceAuthorizationSummary
create_workspace_bootstrap principal membership organization_id =
    Result.◌>>◌ (Result.guard (not (is_blank organization_id)) invalid_argument) (
      Result.◌>>=◌
        (map_err denied
          (authorize_tenant_access principal membership organization_id (text "conversation.read")))
        λ authorization. ok (to_summary authorization))

-- The `catch` of `getBootstrap`.
abbrev pub bootstrap_error : TeamFailure → HttpError
bootstrap_error (denied reason) = forbidden
bootstrap_error other = unmapped other

-- WorkspaceController.getBootstrap
unfoldable pub get_bootstrap :
    (AuthenticatedPrincipal → Text → Result TeamFailure (Option OrganizationMembership))
    → TrustedPrincipalResolution
    → Text
    → Result HttpError WorkspaceAuthorizationSummary
unfolding create_workspace_bootstrap
get_bootstrap memberships identity organization_id =
    Result.◌>>◌ (Result.guard (not (is_blank organization_id)) bad_request) (
      Result.◌>>=◌ (require_principal identity) λ principal.
        Result.◌>>=◌ (found_membership (memberships principal organization_id)) λ membership.
          map_err bootstrap_error
            (create_workspace_bootstrap (some principal) (some membership) organization_id))

pub record WorkspaceDirectoryEntry : Type 0 where
  pub membership_id : Text
  pub organization_id : Text
  pub display_name : Option Text
  pub status : MembershipStatus
  pub roles : List Text

pub record WorkspaceDirectoryResponse : Type 0 where
  pub workspaces : List WorkspaceDirectoryEntry
  pub has_more : Bool

-- What a directory throws, the error of an unconfigured one, and WorkspaceDirectoryDataIntegrityError
pub data WorkspaceDirectoryFailure : Type 0 where
  failed : DirectoryFailure → WorkspaceDirectoryFailure
  unconfigured exceeded : WorkspaceDirectoryFailure

abbrev pub to_entry : OrganizationMembershipDirectoryEntry → WorkspaceDirectoryEntry
to_entry e = record {
  membership_id = e.membership.membership_id;
  organization_id = e.membership.organization_id;
  display_name = e.organization_display_name;
  status = e.membership.status;
  roles = e.membership.roles;
}

unfoldable pub build_workspace_directory_response :
    OrganizationMembershipDirectorySnapshot
    → Result WorkspaceDirectoryFailure WorkspaceDirectoryResponse
build_workspace_directory_response snapshot =
    if ltb max_organization_memberships_per_directory (length snapshot.memberships)
    then err exceeded
    else ok
        (record { workspaces = map to_entry snapshot.memberships; has_more = snapshot.has_more })

-- RejectingOrganizationMembershipDirectory
unfoldable pub rejecting_directory :
    {D : Type 0}
    → AuthenticatedPrincipal
    → Exec D WorkspaceDirectoryFailure OrganizationMembershipDirectorySnapshot
rejecting_directory principal = throw unconfigured

-- The `catch` of `listWorkspaces`; an error of the database client is rethrown.
unfoldable pub directory_error : WorkspaceDirectoryFailure → HttpError
directory_error (failed query_failed) = unmapped TeamStatus.query_failed
directory_error other = service_unavailable

-- WorkspaceDirectoryController.listWorkspaces
unfoldable pub list_workspaces :
    {D : Type 0}
    → (AuthenticatedPrincipal
        → Exec D WorkspaceDirectoryFailure OrganizationMembershipDirectorySnapshot)
    → TrustedPrincipalResolution
    → Exec D HttpError WorkspaceDirectoryResponse
unfolding build_workspace_directory_response
list_workspaces directory identity = do
  principal ← lift (require_principal identity)
  catching directory_error
      (directory principal >>= λ snapshot. lift (build_workspace_directory_response snapshot))
