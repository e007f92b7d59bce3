-- ===== src/Workspace/OrganizationProfile/Tests.antt =====
-- The name of an organization, saved and read.
use vsn_voice_ai.Prelude.{◌≡◌, refl, subst, Option, none, some, List, [], ◌∷◌, arith}
use vsn_voice_ai.Js.Text.{Text, text, text_eq, trim, includes}
use vsn_voice_ai.Js.Value
use vsn_voice_ai.Js.Value.{Value, str, obj, field, end}
use vsn_voice_ai.Js.Result.{Result, ok}
use vsn_voice_ai.Js.Exec.{Exec}
use vsn_voice_ai.Identity.Principal.{
  AuthenticatedPrincipal, is_bounded_identifier, is_valid_principal,
}
use vsn_voice_ai.Identity.Trusted.{authenticated}
use vsn_voice_ai.Organizations.Membership.{OrganizationMembership}
use vsn_voice_ai.Organizations.Authorization.{authorize_tenant_access}
use vsn_voice_ai.Workspace.TeamStatus.{TeamFailure, require_identifier}
use vsn_voice_ai.Workspace.TeamStatus.Tests.{manager, acme, members_with, membership_with}
use vsn_voice_ai.Workspace.Settings.{is_profile_text, authorize_scope}
use vsn_voice_ai.Workspace.OrganizationProfile.{
  OrganizationProfileRow, OrganizationProfileResponse, to_organization_profile,
  postgres_organization_profiles, authorize_organization_profile, save_organization_profile,
  parse_organization_profile, get_organization, put_organization,
}
use vsn_voice_ai.Workspace.OrganizationProfile.Stored.{IsBodyOf, IsTable}
use vsn_voice_ai.Workspace.OrganizationProfile.Saved.{IsSaved, put_organization-get_organization}

-- A table that holds at most one row.
abbrev rows_of : Option OrganizationProfileRow → List OrganizationProfileRow
rows_of none = []
rows_of (some row) = row ∷ []

abbrev select :
    List Value → Exec (Option OrganizationProfileRow) TeamFailure (List OrganizationProfileRow)
select values row = (ok (rows_of row), row)

abbrev upsert :
    List Value → Exec (Option OrganizationProfileRow) TeamFailure (List OrganizationProfileRow)
upsert (o ∷ n ∷ []) row =
    let new : OrganizationProfileRow = record { organization_id = o; display_name = n } in
    (ok (new ∷ []), some new)
upsert values row = (ok [], row)

abbrev body : Value
body = obj (field (text "display_name") (str (text "Acme")) end)

abbrev saved : OrganizationProfileRow
saved = record { organization_id = str acme; display_name = str (text "Acme") }

abbrev response : OrganizationProfileResponse
response = record { organization_id = acme; values = record { display_name = text "Acme" } }

abbrev all_members :
    AuthenticatedPrincipal → Text → Result (Unit {0}) (Option OrganizationMembership)
all_members = members_with (text "conversation.read" ∷ text "team.manage" ∷ [])

saves :
    put_organization
      (postgres_organization_profiles select upsert)
      all_members
      (authenticated manager)
      acme
      body
      none
    ≡ (ok response, some saved)
unfolding put_organization save_organization_profile authorize_organization_profile authorize_scope
    parse_organization_profile require_identifier postgres_organization_profiles
    to_organization_profile is_profile_text authorize_tenant_access is_valid_principal
    is_bounded_identifier Value.keys Value.get text_eq trim includes
saves = refl

read_update :
    (o n : Value) (rows : List OrganizationProfileRow) (d d' : Option OrganizationProfileRow)
    → upsert (o ∷ n ∷ []) d ≡ (ok rows, d')
    → select (o ∷ []) d' ≡ (ok rows, d')
read_update o n rows d d' h = subst (λ x. select (o ∷ []) x.1 ≡ x) h refl

write_update :
    (o n : Value) (rows : List OrganizationProfileRow) (d d' : Option OrganizationProfileRow)
    → upsert (o ∷ n ∷ []) d ≡ (ok rows, d')
    → rows ≡ record { organization_id = o; display_name = n } ∷ []
write_update o n rows d d' h = ground arith

abbrev table : IsTable select upsert
table = record { written = write_update; kept = read_update }

put_organization-get_organization_example :
    IsSaved select upsert all_members acme (authenticated manager) body response none (some saved)
    × IsBodyOf body response.values
    × (get_organization
          (postgres_organization_profiles select upsert)
          all_members
          (authenticated manager)
          acme
          (some saved)
        ≡ (ok response, some saved))
unfolding is_valid_principal is_bounded_identifier text_eq trim includes
put_organization-get_organization_example =
    put_organization-get_organization select upsert all_members acme table (authenticated manager)
      body none (some saved) response saves manager
      (membership_with (text "conversation.read" ∷ text "team.manage" ∷ [])) refl
      (record {
        valid = refl;
        active = refl;
        subject = refl;
        organization = refl;
        permitted = refl;
      })
