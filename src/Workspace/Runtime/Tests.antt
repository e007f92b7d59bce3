-- ===== src/Workspace/Runtime/Tests.antt =====
-- The production services without a database, and over one that fails.
use vsn_voice_ai.Prelude.{◌≡◌, refl, none, [], ◌∷◌}
use vsn_voice_ai.Js.Text.{text, text_eq, trim, includes}
use vsn_voice_ai.Js.Value.{undefined}
use vsn_voice_ai.Js.Result.{ok, err}
use vsn_voice_ai.Js.Exec.{throw}
use vsn_voice_ai.Identity.Principal.{is_bounded_identifier, is_valid_principal}
use vsn_voice_ai.Identity.Trusted.{authenticated}
use vsn_voice_ai.Organizations.Authorization.{authorize_tenant_access}
use vsn_voice_ai.Organizations.Postgres
use vsn_voice_ai.Workspace.TeamStatus
use vsn_voice_ai.Workspace.TeamStatus.{
  HttpError, TeamFailure, StatusResponse, service_unavailable, require_identifier, put_status,
}
use vsn_voice_ai.Workspace.TeamStatus.Tests.{manager, acme, members_with}
use vsn_voice_ai.Workspace.Settings.{authorize_scope, domain_error}
use vsn_voice_ai.Workspace.Profile.{get_profile, load_workspace_profile, authorize_profile}
use vsn_voice_ai.Workspace.Entry.{WorkspaceAuthorizationSummary, get_bootstrap}
use vsn_voice_ai.Workspace.Runtime.{
  WorkspaceServices, WorkspaceClient, runtime_services, rejecting_services, persistence_error,
  create_runtime_services,
}
use vsn_voice_ai.Workspace.Runtime.Mapped.{AnswersMapped, runtime_services-IsMapped}
use vsn_voice_ai.Workspace.Runtime.Closed.{create_runtime_services-closed}

-- Delegates whose profiles fail as the database client does.
abbrev failing : WorkspaceServices (Unit {0})
failing = record rejecting_services {
  profiles = record {
    get_profile = λ s o. throw TeamStatus.query_failed;
    put_profile = λ s o profile. throw TeamStatus.query_failed;
  };
}

unavailable_then :
    get_profile
      (runtime_services failing).profiles
      (members_with (text "conversation.read" ∷ []))
      (authenticated manager)
      acme
      tt
    ≡ (err service_unavailable, tt)
unfolding runtime_services get_profile load_workspace_profile authorize_profile authorize_scope
    persistence_error domain_error require_identifier authorize_tenant_access is_valid_principal
    is_bounded_identifier text_eq trim includes
unavailable_then = refl

runtime_services-IsMapped_example : AnswersMapped (
    get_profile
      (runtime_services failing).profiles
      (members_with (text "conversation.read" ∷ []))
      (authenticated manager)
      acme
      tt)
runtime_services-IsMapped_example =
    (runtime_services-IsMapped failing (members_with (text "conversation.read" ∷ []))
      (authenticated manager) acme undefined tt).0

abbrev no_client : Unit {0} → WorkspaceClient (Unit {0})
no_client c = record {
  memberships = λ values. throw TeamStatus.query_failed;
  directory = λ values. throw Postgres.query_failed;
  team = λ values. throw TeamStatus.query_failed;
  select_preferences = λ values. throw TeamStatus.query_failed;
  upsert_preferences = λ values. throw TeamStatus.query_failed;
  select_profile = λ values. throw TeamStatus.query_failed;
  upsert_profile = λ values. throw TeamStatus.query_failed;
  select_organization = λ values. throw TeamStatus.query_failed;
  upsert_organization = λ values. throw TeamStatus.query_failed;
  update_status = λ values. throw TeamStatus.query_failed;
}

abbrev nothing : WorkspaceAuthorizationSummary
nothing = record { organization_id = acme; membership_id = []; roles = []; permissions = [] }

create_runtime_services-closed_example : ¬ (
    get_bootstrap
      (λ p q. ((create_runtime_services {D = Unit {0}} none no_client).resolver p q tt).0)
      (authenticated manager)
      acme
    ≡ ok nothing)
create_runtime_services-closed_example =
    (create_runtime_services-closed no_client (authenticated manager) acme (text "m2") undefined tt
        tt tt).0
      nothing
