-- ===== src/Workspace/Entry/Tests.antt =====
-- Ann enters her workspace.
use vsn_voice_ai.Prelude.{◌≡◌, refl, map, Option, some, [], ◌∷◌, false}
use vsn_voice_ai.Js.Text.{Text, text, text_eq, trim, includes}
use vsn_voice_ai.Js.Value
use vsn_voice_ai.Js.Result.{Result, ok}
use vsn_voice_ai.Identity.Principal.{
  AuthenticatedPrincipal, is_bounded_identifier, is_valid_principal,
}
use vsn_voice_ai.Identity.Trusted.{authenticated}
use vsn_voice_ai.Organizations.Membership.{OrganizationMembership}
use vsn_voice_ai.Organizations.Authorization.{context_of}
use vsn_voice_ai.Organizations.Postgres.{
  list_for_principal, directory_entries, to_membership, has_valid_columns, is_authority_tokens,
  are_tokens, is_authority_token, is_organization_display_name, status_of,
}
use vsn_voice_ai.Organizations.Tests.{member, one_directory_row, its_directory}
use vsn_voice_ai.Workspace.TeamStatus.{TeamFailure}
use vsn_voice_ai.Workspace.TeamStatus.Tests.{manager, acme, membership_with}
use vsn_voice_ai.Workspace.Entry.{
  WorkspaceDirectoryResponse, to_entry, to_summary, get_bootstrap, list_workspaces,
  build_workspace_directory_response,
}
use vsn_voice_ai.Workspace.Entry.Entered.{IsDirectory, get_bootstrap_iff, list_workspaces_iff}

abbrev conversing : OrganizationMembership
conversing = membership_with (text "conversation.read" ∷ [])

abbrev members : AuthenticatedPrincipal → Text → Result TeamFailure (Option OrganizationMembership)
members p o = ok (some conversing)

get_bootstrap_iff_example :
    get_bootstrap members (authenticated manager) acme
    ≡ ok (to_summary (context_of manager conversing))
unfolding trim is_valid_principal is_bounded_identifier text_eq includes
get_bootstrap_iff_example =
    (get_bootstrap_iff members (authenticated manager) acme
        (to_summary (context_of manager conversing))).1
      (record {
        principal = manager;
        membership = conversing;
        filled = refl;
        known = refl;
        member = refl;
        access = record {
          valid = refl;
          active = refl;
          subject = refl;
          organization = refl;
          permitted = refl;
        };
        answered = refl;
      })

abbrev its_workspaces : WorkspaceDirectoryResponse
its_workspaces = record { workspaces = map to_entry its_directory.memberships; has_more = false }

list_workspaces_iff_example :
    IsDirectory one_directory_row (authenticated member) tt tt its_workspaces
unfolding list_workspaces build_workspace_directory_response list_for_principal directory_entries
    to_membership has_valid_columns is_authority_tokens are_tokens is_authority_token
    is_organization_display_name status_of Value.items is_bounded_identifier text_eq trim includes
list_workspaces_iff_example =
    (list_workspaces_iff one_directory_row (authenticated member) tt tt its_workspaces).0 refl
