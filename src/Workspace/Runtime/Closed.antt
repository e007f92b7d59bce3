-- ===== src/Workspace/Runtime/Closed.antt =====
-- createRuntimeOrganizationMembershipResolver without a database: nothing is answered.
use vsn_voice_ai.Prelude.{◌≡◌, Option, none, some, arith, not}
use vsn_voice_ai.Js.Text.{Text, is_blank}
use vsn_voice_ai.Js.Value.{Value}
use vsn_voice_ai.Js.Result.{Result, ok}
use vsn_voice_ai.Js.Exec.{Exec, lift, ◌>>=◌}
use vsn_voice_ai.Js.Exec.Inversion.{lift-inv, guard-inv, catching-inv}
use vsn_voice_ai.Identity.Principal.{AuthenticatedPrincipal}
use vsn_voice_ai.Identity.Trusted.{TrustedPrincipalResolution}
use vsn_voice_ai.Organizations.Membership.{OrganizationMembership}
use vsn_voice_ai.Workspace.TeamStatus.{
  TeamFailure, HttpError, StatusResponse, bad_request, require_identifier, require_principal,
  parse_status, put_status,
}
use vsn_voice_ai.Workspace.Settings.{handle}
use vsn_voice_ai.Workspace.Settings.Handled.{handle-IsHandled}
use vsn_voice_ai.Workspace.Profile.{
  WorkspaceProfileResponse, get_profile, put_profile, parse_profile, load_workspace_profile,
  save_workspace_profile,
}
use vsn_voice_ai.Workspace.OrganizationProfile.{
  OrganizationProfileResponse, get_organization, put_organization, parse_organization_profile,
  load_organization_profile, save_organization_profile,
}
use vsn_voice_ai.Workspace.Preferences.{
  PreferencesResponse, get_preferences, put_preferences, parse_preferences, load_preferences,
  save_preferences,
}
use vsn_voice_ai.Workspace.Team.{WorkspaceTeamSnapshot, get_team}
use vsn_voice_ai.Workspace.Entry.{
  WorkspaceAuthorizationSummary, WorkspaceDirectoryResponse, get_bootstrap, list_workspaces,
  directory_error, rejecting_directory, build_workspace_directory_response,
}
use vsn_voice_ai.Workspace.Entry.Entered.{get_bootstrap_iff}
use vsn_voice_ai.Workspace.Runtime.{WorkspaceServices, WorkspaceClient, create_runtime_services}

-- Nobody is a member.
abbrev pub nobody :
    AuthenticatedPrincipal → Text → Result TeamFailure (Option OrganizationMembership)
nobody p o = ok none

module _ {D : Type 0} (identity : TrustedPrincipalResolution) (o : Text) where
  handle-nobody :
      {B R : Type 0} (parsed : Result HttpError B)
      (action : AuthenticatedPrincipal → OrganizationMembership → Text → B → Exec D TeamFailure R)
      (d d' : D) (r : R)
      → ¬ (handle nobody identity o parsed action d ≡ (ok r, d'))
  handle-nobody parsed action d d' r h =
      let member = (handle-IsHandled nobody identity o parsed action d d' r h).member in
      ground arith

  get_team-nobody :
      (team : Text → Exec D TeamFailure WorkspaceTeamSnapshot) (d d' : D)
      (r : WorkspaceTeamSnapshot)
      → ¬ (get_team team nobody identity o d ≡ (ok r, d'))
  unfolding get_team
  get_team-nobody team d d' r h =
      let (_, h₁) = guard-inv (not (is_blank o)) bad_request _ d h in
      let (p, _, h₂) = lift-inv (require_principal identity) _ h₁ in ground arith

  put_status-nobody :
      (repository : Text → Text → Text → _ → Exec D TeamFailure (Option StatusResponse)) (m : Text)
      (body : Value) (d d' : D) (r : StatusResponse)
      → ¬ (put_status repository nobody identity o m body d ≡ (ok r, d'))
  unfolding put_status
  put_status-nobody repository m body d d' r h =
      let (_, _, h₁) = lift-inv (require_identifier bad_request o) _ h in
      let (_, _, h₂) = lift-inv (require_identifier bad_request m) _ h₁ in
      let (_, _, h₃) = lift-inv (parse_status body) _ h₂ in
      let (p, _, h₄) = lift-inv (require_principal identity) _ h₃ in ground arith

  list_workspaces-rejecting :
      (d d' : D) (r : WorkspaceDirectoryResponse)
      → ¬ (list_workspaces rejecting_directory identity d ≡ (ok r, d'))
  unfolding list_workspaces rejecting_directory
  list_workspaces-rejecting d d' r h =
      let (p, _, h₁) = lift-inv (require_principal identity) _ h in
      let thrown =
        catching-inv directory_error
          (rejecting_directory p >>= λ s. lift (build_workspace_directory_response s)) d h₁ in
      ground arith

module _ {D Config : Type 0} (create_client : Config → WorkspaceClient D)
    (identity : TrustedPrincipalResolution) (o : Text) where
  abbrev services : WorkspaceServices D
  services = create_runtime_services none create_client

  -- The membership of a request, as the resolver finds it.
  abbrev members :
      D → AuthenticatedPrincipal → Text → Result TeamFailure (Option OrganizationMembership)
  members d p q = (services.resolver p q d).0

  -- Where no database is configured, no handler of the workspace answers anything but an error, whoever
  -- asks: no entry, no list of workspaces, no team, no profile or preference read or written, and no
  -- change of a member's status.
  pub create_runtime_services-closed :
      (m : Text) (body : Value) (c d d' : D)
      → ((r : WorkspaceAuthorizationSummary) → ¬ (get_bootstrap (members c) identity o ≡ ok r))
        × ((r : WorkspaceDirectoryResponse)
            → ¬ (list_workspaces services.directory identity d ≡ (ok r, d')))
        × ((r : WorkspaceTeamSnapshot)
            → ¬ (get_team services.team (members c) identity o d ≡ (ok r, d')))
        × ((r : WorkspaceProfileResponse)
            → ¬ (get_profile services.profiles (members c) identity o d ≡ (ok r, d')))
        × ((r : WorkspaceProfileResponse)
            → ¬ (put_profile services.profiles (members c) identity o body d ≡ (ok r, d')))
        × ((r : PreferencesResponse)
            → ¬ (get_preferences services.preferences (members c) identity o d ≡ (ok r, d')))
        × ((r : PreferencesResponse)
            → ¬ (put_preferences services.preferences (members c) identity o body d ≡ (ok r, d')))
        × ((r : OrganizationProfileResponse)
            → ¬ (
                get_organization services.organization_profiles (members c) identity o d
                ≡ (ok r, d')))
        × ((r : OrganizationProfileResponse)
            → ¬ (
                put_organization services.organization_profiles (members c) identity o body d
                ≡ (ok r, d')))
        × ((r : StatusResponse)
            → ¬ (put_status services.member_status (members c) identity o m body d ≡ (ok r, d')))
  unfolding create_runtime_services get_profile put_profile get_preferences put_preferences
      get_organization put_organization
  create_runtime_services-closed m body c d d' = (
    λ r h. let member = ((get_bootstrap_iff nobody identity o r).0 h).member in ground arith,
    list_workspaces-rejecting identity o d d',
    get_team-nobody identity o services.team d d',
    handle-nobody identity o (ok tt)
        (λ p q x b. load_workspace_profile services.profiles (some p) (some q) x) d d',
    handle-nobody identity o (parse_profile body)
        (λ p q x b. save_workspace_profile services.profiles (some p) (some q) x b) d d',
    handle-nobody identity o (ok tt)
        (λ p q x b. load_preferences services.preferences (some p) (some q) x) d d',
    handle-nobody identity o (parse_preferences body)
        (λ p q x b. save_preferences services.preferences (some p) (some q) x b) d d',
    handle-nobody identity o (ok tt)
        (λ p q x b. load_organization_profile services.organization_profiles (some p) (some q) x) d
        d',
    handle-nobody identity o (parse_organization_profile body)
        (λ p q x b. save_organization_profile services.organization_profiles (some p) (some q) x b)
        d d',
    put_status-nobody identity o services.member_status m body d d',
  )
