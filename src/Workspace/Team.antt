-- ===== src/Workspace/Team.antt =====
-- workspace-team-repository.ts, postgres-workspace-team-repository.ts and workspace-team.controller.ts.
-- The database client is a parameter: the lookup with its values, that returns rows of any values or
-- throws.
pub mod Rows
pub mod Listed
pub mod Loaded
pub mod Tests
use vsn_voice_ai.Prelude.{
  ℕ, ◌+◌, Bool, true, false, ◌&&◌, ◌||◌, not, Option, none, some, List, [], ◌∷◌, leb, ltb, ◌==◌,
  length, all, take, if◌then◌else◌,
}
use vsn_voice_ai.Js.Text.{Text, text, text_eq, trim, includes, is_blank}
use vsn_voice_ai.Js.Number.{int, pos}
use vsn_voice_ai.Js.Value.{Value, null, str, num, as_text}
use vsn_voice_ai.Js.Result
use vsn_voice_ai.Js.Result.{Result, ok, err, map_err}
use vsn_voice_ai.Js.Exec.{Exec, pure, throw, lift, guard, catching, ◌>>=◌, ◌>>◌}
use vsn_voice_ai.Identity.Principal.{
  AuthenticatedPrincipal, is_bounded_identifier, is_bounded_value,
}
use vsn_voice_ai.Identity.Trusted.{TrustedPrincipalResolution}
use vsn_voice_ai.Organizations.Membership.{OrganizationMembership, MembershipStatus}
use vsn_voice_ai.Organizations.Authorization.{authorize_tenant_access}
use vsn_voice_ai.Organizations.Postgres.{
  is_authority_tokens, texts, elements, status_of, column, display_name_of,
}
use vsn_voice_ai.Workspace.TeamStatus.{
  TeamFailure, invalid_argument, data_integrity, persistence_unavailable, denied, HttpError,
  bad_request, forbidden, unmapped, require_principal,
}
use vsn_voice_ai.Workspace.Settings.{is_profile_text, domain_error}

abbrev pub max_workspace_team_members : ℕ
max_workspace_team_members = 200

pub record WorkspaceTeamMember : Type 0 where
  pub membership_id : Text
  pub display_name : Option Text
  pub status : MembershipStatus
  pub roles : List Text

pub record WorkspaceTeamSnapshot : Type 0 where
  pub organization_id : Text
  pub members : List WorkspaceTeamMember
  pub has_more : Bool

-- WorkspaceTeamRepository
abbrev pub TeamRepository : Type 0 → Type 0
TeamRepository D = Text → Exec D TeamFailure WorkspaceTeamSnapshot

-- `isDisplayName` of workspace-team-repository.ts
unfoldable pub is_member_name : Option Text → Bool
unfolding is_profile_text
is_member_name none = true
is_member_name (some s) = leb 1 (length s) && is_profile_text 80 s

unfoldable pub load_workspace_team :
    {D : Type 0}
    → TeamRepository D
    → Option AuthenticatedPrincipal
    → Option OrganizationMembership
    → Text
    → Exec D TeamFailure WorkspaceTeamSnapshot
unfolding is_member_name
load_workspace_team repository principal membership organization_id = do
  guard (not (is_blank organization_id)) invalid_argument
  _ ← lift (
      map_err denied
        (authorize_tenant_access principal membership (trim organization_id) (text "team.read")))
  snapshot ← repository (trim organization_id)
  guard (text_eq snapshot.organization_id (trim organization_id)) data_integrity
  guard (not (ltb max_workspace_team_members (length snapshot.members))) data_integrity
  guard (all (λ member. is_member_name member.display_name) snapshot.members) data_integrity
  pure snapshot

-- RejectingWorkspaceTeamRepository
unfoldable pub rejecting_team : {D : Type 0} → TeamRepository D
rejecting_team organization_id = throw persistence_unavailable

pub record WorkspaceTeamRow : Type 0 where
  pub membership_id : Value
  pub subject_id : Value
  pub organization_id : Value
  pub status : Value
  pub roles : Value
  pub display_name : Value

-- `isDisplayName` of postgres-workspace-team-repository.ts
abbrev pub is_stored_name : Value → Bool
is_stored_name null = true
is_stored_name (str s) = is_profile_text 80 s
is_stored_name _ = false

unfoldable pub has_team_columns : Text → WorkspaceTeamRow → Bool
unfolding is_profile_text
has_team_columns organization_id row =
    is_bounded_value (as_text row.membership_id) 128
    && is_bounded_value (as_text row.subject_id) 128
    && is_bounded_value (as_text row.organization_id) 128
    && text_eq (column row.organization_id) organization_id
    && is_authority_tokens row.roles 1 32 128
    && is_stored_name row.display_name

abbrev pub member_of :
    WorkspaceTeamRow → Option MembershipStatus → Result TeamFailure WorkspaceTeamMember
member_of row none = err data_integrity
member_of row (some status) = ok (record {
  membership_id = column row.membership_id;
  display_name = display_name_of row.display_name;
  status = status;
  roles = texts (elements row.roles);
})

unfoldable pub to_team_member : Text → WorkspaceTeamRow → Result TeamFailure WorkspaceTeamMember
unfolding has_team_columns
to_team_member organization_id row =
    if has_team_columns organization_id row
    then member_of row (status_of (as_text row.status))
    else err data_integrity

-- The `map` over the rows, with the memberships and the subjects seen so far.
unfoldable pub team_members :
    Text
    → List Text
    → List Text
    → List WorkspaceTeamRow
    → Result TeamFailure (List WorkspaceTeamMember)
unfolding to_team_member
team_members organization_id seen_ids seen_subjects [] = ok []
team_members organization_id seen_ids seen_subjects (r ∷ rs) =
    Result.◌>>=◌ (to_team_member organization_id r) λ m.
      Result.◌>>◌
        (Result.guard
          (not (includes seen_ids m.membership_id || includes seen_subjects (column r.subject_id)))
          data_integrity)
        (Result.◌>>=◌
          (team_members organization_id (m.membership_id ∷ seen_ids)
            (column r.subject_id ∷ seen_subjects) rs)
          λ members. ok (m ∷ members))

-- PostgresWorkspaceTeamRepository.listByOrganization
unfoldable pub postgres_team :
    {D : Type 0} → (List Value → Exec D TeamFailure (List WorkspaceTeamRow)) → TeamRepository D
unfolding team_members
postgres_team lookup organization_id = do
  guard (is_bounded_identifier (trim organization_id) 128) invalid_argument
  rows ← lookup (str (trim organization_id) ∷ num (int (pos (max_workspace_team_members + 1))) ∷ [])
  members ← lift (team_members (trim organization_id) [] [] (take max_workspace_team_members rows))
  pure (record {
    organization_id = trim organization_id;
    members = members;
    has_more = ltb max_workspace_team_members (length rows);
  })

-- The membership of a request; an error of the resolver is not caught.
abbrev pub found_membership :
    Result TeamFailure (Option OrganizationMembership) → Result HttpError OrganizationMembership
found_membership (err e) = err (unmapped e)
found_membership (ok none) = err forbidden
found_membership (ok (some m)) = ok m

-- The controller's `getTeam`
unfoldable pub get_team :
    {D : Type 0}
    → TeamRepository D
    → (AuthenticatedPrincipal → Text → Result TeamFailure (Option OrganizationMembership))
    → TrustedPrincipalResolution
    → Text
    → Exec D HttpError WorkspaceTeamSnapshot
unfolding load_workspace_team domain_error
get_team repository memberships identity organization_id = do
  guard (not (is_blank organization_id)) bad_request
  principal ← lift (require_principal identity)
  membership ← lift (found_membership (memberships principal (trim organization_id)))
  catching domain_error
      (load_workspace_team repository (some principal) (some membership) (trim organization_id))
