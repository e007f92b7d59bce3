-- ===== src/Workspace/TeamStatus/Tests.antt =====
-- The status of one member, changed by a manager and by another member.
use vsn_voice_ai.Prelude.{refl, Option, none, some, List, [], ◌∷◌}
use vsn_voice_ai.Js.Text.{Text, text, text_eq, trim, includes}
use vsn_voice_ai.Js.Value
use vsn_voice_ai.Js.Value.{Value, str, obj, field, end}
use vsn_voice_ai.Js.Result.{Result, ok}
use vsn_voice_ai.Js.Exec.{Exec, pure}
use vsn_voice_ai.Identity.Principal.{
  AuthenticatedPrincipal, is_bounded_identifier, is_valid_principal,
}
use vsn_voice_ai.Identity.Trusted.{authenticated}
use vsn_voice_ai.Organizations.Membership.{OrganizationMembership, active}
use vsn_voice_ai.Organizations.Authorization.{authorize_tenant_access}
use vsn_voice_ai.Workspace.TeamStatus.{
  suspended, StatusRow, TeamFailure, managed_status_of, parse_status, is_requested_row,
  postgres_repository, require_identifier, change_member_status, put_status,
}
use vsn_voice_ai.Workspace.TeamStatus.Changed.{response}
use vsn_voice_ai.Workspace.TeamStatus.Managed.{IsManaged, put_status-IsManaged}

abbrev pub manager : AuthenticatedPrincipal
manager = record { subject_id = text "ann"; session_id = none }

abbrev pub acme : Text
acme = text "acme"

abbrev pub membership_with : List Text → OrganizationMembership
membership_with permissions = record {
  membership_id = text "m1";
  subject_id = text "ann";
  organization_id = acme;
  status = active;
  roles = [];
  permissions = permissions;
}

abbrev managing : OrganizationMembership
managing = membership_with (text "team.manage" ∷ [])

abbrev its_row : StatusRow
its_row = record {
  organization_id = str acme;
  membership_id = str (text "m2");
  status = str (text "suspended");
}

-- A database that makes the update.
abbrev update : List Value → Exec (Unit {0}) TeamFailure (List StatusRow)
update values = pure (its_row ∷ [])

abbrev pub members_with :
    List Text → AuthenticatedPrincipal → Text → Result (Unit {0}) (Option OrganizationMembership)
members_with permissions p o = ok (some (membership_with permissions))

abbrev suspend_body : Value
suspend_body = obj (field (text "status") (str (text "suspended")) end)

put_status-IsManaged_example :
    IsManaged update
      (members_with (text "team.manage" ∷ []))
      (authenticated manager)
      acme
      (text "m2")
      suspend_body
      (response acme (text "m2") suspended)
      tt
      tt
unfolding put_status change_member_status require_identifier parse_status authorize_tenant_access
    postgres_repository is_requested_row managed_status_of is_valid_principal is_bounded_identifier
    Value.keys Value.get text_eq trim includes
put_status-IsManaged_example =
    put_status-IsManaged update (members_with (text "team.manage" ∷ [])) (authenticated manager)
      acme (text "m2") suspend_body tt tt (response acme (text "m2") suspended) refl
