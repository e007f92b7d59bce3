-- ===== src/Workspace/Team/Tests.antt =====
-- A team of two members, one of them without a name.
use vsn_voice_ai.Prelude.{◌≡◌, refl, Option, none, some, List, [], ◌∷◌, false}
use vsn_voice_ai.Js.Text.{Text, text, text_eq, trim, includes}
use vsn_voice_ai.Js.Value
use vsn_voice_ai.Js.Value.{Value, null, str, arr, nil, cons}
use vsn_voice_ai.Js.Result.{Result, ok}
use vsn_voice_ai.Js.Exec.{Exec, pure}
use vsn_voice_ai.Identity.Principal.{
  AuthenticatedPrincipal, is_bounded_identifier, is_valid_principal,
}
use vsn_voice_ai.Identity.Trusted.{authenticated}
use vsn_voice_ai.Organizations.Membership.{OrganizationMembership, active}
use vsn_voice_ai.Organizations.Authorization.{authorize_tenant_access}
use vsn_voice_ai.Organizations.Postgres.{
  is_authority_token, is_authority_tokens, are_tokens, status_of,
}
use vsn_voice_ai.Workspace.TeamStatus.{TeamFailure}
use vsn_voice_ai.Workspace.TeamStatus.Tests.{manager, acme, membership_with}
use vsn_voice_ai.Workspace.Settings.{is_profile_text}
use vsn_voice_ai.Workspace.Team.{
  WorkspaceTeamSnapshot, WorkspaceTeamRow, is_member_name, load_workspace_team, has_team_columns,
  to_team_member, team_members, postgres_team, get_team,
}
use vsn_voice_ai.Workspace.Team.Loaded.{
  IsListing, load_workspace_team-postgres_team, get_team-IsListing,
}

abbrev row : Text → Text → Value → WorkspaceTeamRow
row id subject name = record {
  membership_id = str id;
  subject_id = str subject;
  organization_id = str acme;
  status = str (text "active");
  roles = arr (cons (str (text "owner")) nil);
  display_name = name;
}

abbrev lookup : List Value → Exec (Unit {0}) TeamFailure (List WorkspaceTeamRow)
lookup values =
    pure
      (row (text "m1") (text "ann") (str (text "Ann")) ∷ row (text "m2") (text "bob") (str []) ∷ [])

abbrev reading : OrganizationMembership
reading = membership_with (text "team.read" ∷ [])

abbrev members : AuthenticatedPrincipal → Text → Result TeamFailure (Option OrganizationMembership)
members p o = ok (some reading)

abbrev team : WorkspaceTeamSnapshot
team = record {
  organization_id = acme;
  members =
      record {
        membership_id = text "m1";
        display_name = some (text "Ann");
        status = active;
        roles = text "owner" ∷ [];
      }
      ∷ record {
        membership_id = text "m2";
        display_name = none;
        status = active;
        roles = text "owner" ∷ [];
      }
      ∷ [];
  has_more = false;
}

lists : get_team (postgres_team lookup) members (authenticated manager) acme tt ≡ (ok team, tt)
unfolding get_team load_workspace_team postgres_team team_members to_team_member has_team_columns
    is_authority_tokens are_tokens is_authority_token status_of is_profile_text is_member_name
    authorize_tenant_access is_valid_principal is_bounded_identifier text_eq trim includes
    Value.items
lists = refl

get_team-IsListing_example : IsListing lookup members (authenticated manager) acme team tt tt
unfolding trim
get_team-IsListing_example =
    get_team-IsListing lookup members (authenticated manager) acme tt tt team lists

load_workspace_team-postgres_team_example :
    load_workspace_team (postgres_team lookup) (some manager) (some reading) acme tt
    ≡ postgres_team lookup acme tt
unfolding trim is_valid_principal is_bounded_identifier text_eq includes
load_workspace_team-postgres_team_example =
    load_workspace_team-postgres_team lookup manager reading acme tt refl (record {
      valid = refl;
      active = refl;
      subject = refl;
      organization = refl;
      permitted = refl;
    })
