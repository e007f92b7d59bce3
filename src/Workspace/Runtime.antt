-- ===== src/Workspace/Runtime.antt =====
-- runtime-organization-membership-resolver.ts and runtime-workspace-team-repository.ts: the services of
-- the workspace in production, over one database client or none. The client is a parameter: its
-- statements with their values.
pub mod Mapped
pub mod Closed
pub mod Tests
use vsn_voice_ai.Prelude.{Option, none, some, List}
use vsn_voice_ai.Js.Text.{Text}
use vsn_voice_ai.Js.Value.{Value}
use vsn_voice_ai.Js.Exec.{Exec, pure, throw, catching}
use vsn_voice_ai.Identity.Principal.{AuthenticatedPrincipal}
use vsn_voice_ai.Organizations.Membership.{OrganizationMembership}
use vsn_voice_ai.Organizations.Postgres.{
  MembershipRow, DirectoryRow, DirectoryFailure, OrganizationMembershipDirectorySnapshot, resolve,
  list_for_principal,
}
use vsn_voice_ai.DesktopLink.Runtime.{Shutdown, on_application_shutdown}
use vsn_voice_ai.Workspace.TeamStatus.{
  TeamFailure, data_integrity, persistence_unavailable, Repository, StatusRow, postgres_repository,
}
use vsn_voice_ai.Workspace.Team.{TeamRepository, WorkspaceTeamRow, rejecting_team, postgres_team}
use vsn_voice_ai.Workspace.Entry.{WorkspaceDirectoryFailure, failed, rejecting_directory}
use vsn_voice_ai.Workspace.Profile.{
  WorkspaceProfileRepository, WorkspaceProfileRow, rejecting_profiles, postgres_profiles,
}
use vsn_voice_ai.Workspace.OrganizationProfile.{
  OrganizationProfileRepository, OrganizationProfileRow, rejecting_organization_profiles,
  postgres_organization_profiles,
}
use vsn_voice_ai.Workspace.Preferences.{
  PreferencesRepository, PreferencesRow, rejecting_preferences, postgres_preferences,
}

-- The delegates of RuntimeOrganizationMembershipResolver, and its methods.
pub record WorkspaceServices (D : Type 0) : Type 0 where
  pub resolver : AuthenticatedPrincipal → Text → Exec D TeamFailure (Option OrganizationMembership)
  pub directory :
      AuthenticatedPrincipal
      → Exec D WorkspaceDirectoryFailure OrganizationMembershipDirectorySnapshot
  pub team : TeamRepository D
  pub preferences : PreferencesRepository D
  pub profiles : WorkspaceProfileRepository D
  pub organization_profiles : OrganizationProfileRepository D
  pub member_status : Repository D

-- The `catch` of a method: the two errors of persistence are rethrown, any other becomes unavailable.
unfoldable pub persistence_error : TeamFailure → TeamFailure
persistence_error data_integrity = data_integrity
persistence_error persistence_unavailable = persistence_unavailable
persistence_error other = persistence_unavailable

unfoldable pub runtime_services : {D : Type 0} → WorkspaceServices D → WorkspaceServices D
runtime_services delegate = record {
  resolver = delegate.resolver;
  directory = delegate.directory;
  team = delegate.team;
  preferences = record {
    get = λ subject_id organization_id.
        catching persistence_error (delegate.preferences.get subject_id organization_id);
    put = λ subject_id organization_id preferences.
        catching persistence_error
          (delegate.preferences.put subject_id organization_id preferences);
  };
  profiles = record {
    get_profile = λ subject_id organization_id.
        catching persistence_error (delegate.profiles.get_profile subject_id organization_id);
    put_profile = λ subject_id organization_id profile.
        catching persistence_error
          (delegate.profiles.put_profile subject_id organization_id profile);
  };
  organization_profiles = record {
    get_organization_profile = λ organization_id.
        catching persistence_error
          (delegate.organization_profiles.get_organization_profile organization_id);
    put_organization_profile = λ organization_id profile.
        catching persistence_error
          (delegate.organization_profiles.put_organization_profile organization_id profile);
  };
  member_status = λ actor_subject_id organization_id membership_id status.
      catching persistence_error
        (delegate.member_status actor_subject_id organization_id membership_id status);
}

-- RejectingOrganizationMembershipResolver
unfoldable pub rejecting_resolver :
    {D : Type 0}
    → AuthenticatedPrincipal
    → Text
    → Exec D TeamFailure (Option OrganizationMembership)
rejecting_resolver principal organization_id = pure none

-- RejectingWorkspaceTeamMemberStatusRepository
unfoldable pub rejecting_member_status : {D : Type 0} → Repository D
rejecting_member_status actor_subject_id organization_id membership_id status =
    throw persistence_unavailable

abbrev pub rejecting_services : {D : Type 0} → WorkspaceServices D
rejecting_services = record {
  resolver = rejecting_resolver;
  directory = rejecting_directory;
  team = rejecting_team;
  preferences = rejecting_preferences;
  profiles = rejecting_profiles;
  organization_profiles = rejecting_organization_profiles;
  member_status = rejecting_member_status;
}

-- The statements of a client's pool.
pub record WorkspaceClient (D : Type 0) : Type 0 where
  pub memberships : List Value → Exec D TeamFailure (List MembershipRow)
  pub directory : List Value → Exec D DirectoryFailure (List DirectoryRow)
  pub team : List Value → Exec D TeamFailure (List WorkspaceTeamRow)
  pub select_preferences : List Value → Exec D TeamFailure (List PreferencesRow)
  pub upsert_preferences : List Value → Exec D TeamFailure (List PreferencesRow)
  pub select_profile : List Value → Exec D TeamFailure (List WorkspaceProfileRow)
  pub upsert_profile : List Value → Exec D TeamFailure (List WorkspaceProfileRow)
  pub select_organization : List Value → Exec D TeamFailure (List OrganizationProfileRow)
  pub upsert_organization : List Value → Exec D TeamFailure (List OrganizationProfileRow)
  pub update_status : List Value → Exec D TeamFailure (List StatusRow)

abbrev pub postgres_services : {D : Type 0} → WorkspaceClient D → WorkspaceServices D
postgres_services client = record {
  resolver = resolve client.memberships;
  directory = λ principal. catching failed (list_for_principal client.directory principal);
  team = postgres_team client.team;
  preferences = postgres_preferences client.select_preferences client.upsert_preferences;
  profiles = postgres_profiles client.select_profile client.upsert_profile;
  organization_profiles =
      postgres_organization_profiles client.select_organization client.upsert_organization;
  member_status = postgres_repository client.update_status;
}

-- `createRuntimeOrganizationMembershipResolver`, of the configuration that is loaded.
unfoldable pub create_runtime_services :
    {D Config : Type 0} → Option Config → (Config → WorkspaceClient D) → WorkspaceServices D
unfolding runtime_services rejecting_resolver rejecting_member_status
create_runtime_services none create_client = runtime_services rejecting_services
create_runtime_services (some config) create_client =
    runtime_services (postgres_services (create_client config))

-- `createRuntimeWorkspaceTeamRepository`
unfoldable pub create_runtime_team :
    {D Config : Type 0} → Option Config → (Config → WorkspaceClient D) → TeamRepository D
create_runtime_team none create_client = rejecting_team
create_runtime_team (some config) create_client = postgres_team (create_client config).team

-- `onApplicationShutdown`, as that of the record store
unfoldable pub close_services : Shutdown → Shutdown
unfolding on_application_shutdown
close_services s = on_application_shutdown s
