-- ===== src/Organizations/Tests.antt =====
-- tenant-authorization.ts and postgres-organization-membership-resolver.ts on one member.
use vsn_voice_ai.Prelude.{
  ◌≤◌, ◌<◌, ◌≡◌, refl, ◌↔◌, true, false, none, some, List, [], ◌∷◌, length, take,
}
use vsn_voice_ai.Js.Text.{text, text_eq, trim, includes}
use vsn_voice_ai.Js.Number.{int, pos}
use vsn_voice_ai.Js.Value
use vsn_voice_ai.Js.Value.{Value, str, num, arr, nil, cons}
use vsn_voice_ai.Js.Result.{ok}
use vsn_voice_ai.Js.Exec.{Exec, pure}
use vsn_voice_ai.Identity.Principal.{
  AuthenticatedPrincipal, is_valid_principal, is_bounded_identifier,
}
use vsn_voice_ai.Organizations.Membership.{OrganizationMembership, active}
use vsn_voice_ai.Organizations.Authorization.{
  authorize_tenant_access, authorize_tenant_access_iff, context_of,
}
use vsn_voice_ai.Organizations.Postgres.{
  MembershipRow, DirectoryRow, DirectoryFailure, OrganizationMembershipDirectorySnapshot, resolve,
  list_for_principal, directory_entries, to_membership, has_valid_columns, is_authority_tokens,
  are_tokens, is_authority_token, is_organization_display_name, status_of,
}
use vsn_voice_ai.Organizations.Postgres.Resolved.{IsMembershipOf, resolve-IsMembershipOf}
use vsn_voice_ai.Organizations.Postgres.Directory.{AreEntriesOf, list_for_principal-AreEntriesOf}

abbrev pub member : AuthenticatedPrincipal
member = record { subject_id = text "ann"; session_id = none }

abbrev pub its_membership : OrganizationMembership
its_membership = record {
  membership_id = text "m1";
  subject_id = text "ann";
  organization_id = text "acme";
  status = active;
  roles = [];
  permissions = text "device.link" ∷ [];
}

authorize_tenant_access_iff_example :
    authorize_tenant_access (some member) (some its_membership) (text "acme") (text "device.link")
    ≡ ok (context_of member its_membership)
unfolding is_valid_principal is_bounded_identifier text_eq trim includes
authorize_tenant_access_iff_example =
    (authorize_tenant_access_iff (some member) (some its_membership) (text "acme")
        (text "device.link") (context_of member its_membership)).1
      (
        member,
        its_membership,
        refl,
        refl,
        record {
          valid = refl;
          active = refl;
          subject = refl;
          organization = refl;
          permitted = refl;
        },
        refl,
      )

-- A row of Ann's membership, as the database gives it.
abbrev pub its_row : MembershipRow
its_row = record {
  membership_id = str (text "m1");
  subject_id = str (text "ann");
  organization_id = str (text "acme");
  status = str (text "active");
  roles = arr (cons (str (text "owner")) nil);
  permissions = arr (cons (str (text "device.link")) nil);
}

abbrev pub stored_membership : OrganizationMembership
stored_membership = record its_membership { roles = text "owner" ∷ [] }

abbrev one_row : List Value → Exec (Unit {0}) (Unit {0}) (List MembershipRow)
one_row values = pure (its_row ∷ [])

abbrev pub one_directory_row : List Value → Exec (Unit {0}) DirectoryFailure (List DirectoryRow)
one_directory_row values = pure (record { row = its_row; display_name = str (text "Acme") } ∷ [])

resolve-IsMembershipOf_example :
    IsMembershipOf (trim (text " ann ")) stored_membership
    × (stored_membership.organization_id ≡ trim (text "acme"))
unfolding resolve to_membership has_valid_columns is_authority_tokens are_tokens is_authority_token
    status_of Value.items is_bounded_identifier text_eq trim includes
resolve-IsMembershipOf_example =
    resolve-IsMembershipOf one_row (record { subject_id = text " ann "; session_id = none })
      (text "acme") tt tt stored_membership refl

abbrev pub its_directory : OrganizationMembershipDirectorySnapshot
its_directory = record {
  memberships =
      record { membership = stored_membership; organization_display_name = some (text "Acme") }
      ∷ [];
  has_more = false;
}

list_for_principal-AreEntriesOf_example :
    (rows : List DirectoryRow) × (one_directory_row
        (str (trim (text "ann")) ∷ num (int (pos 101)) ∷ [])
        tt
      ≡ (ok rows, tt))
    × AreEntriesOf (trim (text "ann")) its_directory.memberships
    × (length its_directory.memberships ≡ length (take 100 rows))
    × (length its_directory.memberships ≤ 100)
    × ((its_directory.has_more ≡ true) ↔ (100 < length rows))
unfolding list_for_principal directory_entries to_membership has_valid_columns is_authority_tokens
    are_tokens is_authority_token is_organization_display_name status_of Value.items
    is_bounded_identifier text_eq trim includes
list_for_principal-AreEntriesOf_example =
    list_for_principal-AreEntriesOf one_directory_row member tt tt its_directory refl
