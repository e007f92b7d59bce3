-- ===== src/Workspace/Profile/Tests.antt =====
-- A profile saved by a member and read again.
use vsn_voice_ai.Prelude.{◌≡◌, refl, Option, none, some, List, [], ◌∷◌}
use vsn_voice_ai.Js.Text.{text, text_eq, trim, includes}
use vsn_voice_ai.Js.Value
use vsn_voice_ai.Js.Value.{Value, str, obj, field, end}
use vsn_voice_ai.Js.Result.{ok}
use vsn_voice_ai.Js.Exec.{Exec}
use vsn_voice_ai.Identity.Principal.{is_bounded_identifier, is_valid_principal}
use vsn_voice_ai.Identity.Trusted.{authenticated}
use vsn_voice_ai.Organizations.Authorization.{authorize_tenant_access}
use vsn_voice_ai.Workspace.TeamStatus.{TeamFailure, require_identifier}
use vsn_voice_ai.Workspace.TeamStatus.Tests.{manager, acme, members_with}
use vsn_voice_ai.Workspace.Settings.{is_profile_text, authorize_scope}
use vsn_voice_ai.Workspace.Profile.{
  WorkspaceProfileRow, WorkspaceProfileResponse, is_profile, to_profile, postgres_profiles,
  authorize_profile, save_workspace_profile, parse_profile, put_profile,
}
use vsn_voice_ai.Workspace.Profile.Saved.{IsSaved, put_profile-IsSaved}

-- A table that holds at most one row.
abbrev rows_of : Option WorkspaceProfileRow → List WorkspaceProfileRow
rows_of none = []
rows_of (some row) = row ∷ []

abbrev select :
    List Value → Exec (Option WorkspaceProfileRow) TeamFailure (List WorkspaceProfileRow)
select values row = (ok (rows_of row), row)

abbrev upsert :
    List Value → Exec (Option WorkspaceProfileRow) TeamFailure (List WorkspaceProfileRow)
upsert (o ∷ s ∷ d ∷ j ∷ []) row =
    let new : WorkspaceProfileRow = record {
      subject_id = s;
      organization_id = o;
      display_name = d;
      job_title = j;
    } in
    (ok (new ∷ []), some new)
upsert values row = (ok [], row)

abbrev body : Value
body = obj (field (text "display_name") (str (text "Ann")) (field (text "job_title") (str []) end))

abbrev saved : WorkspaceProfileRow
saved = record {
  subject_id = str (text "ann");
  organization_id = str acme;
  display_name = str (text "Ann");
  job_title = str [];
}

abbrev response : WorkspaceProfileResponse
response = record {
  organization_id = acme;
  values = record { display_name = text "Ann"; job_title = [] };
}

saves :
    put_profile
      (postgres_profiles select upsert)
      (members_with (text "conversation.read" ∷ []))
      (authenticated manager)
      acme
      body
      none
    ≡ (ok response, some saved)
unfolding put_profile save_workspace_profile authorize_profile authorize_scope parse_profile
    require_identifier postgres_profiles is_profile to_profile is_profile_text
    authorize_tenant_access is_valid_principal is_bounded_identifier Value.keys Value.get text_eq
    trim includes
saves = refl

put_profile-IsSaved_example :
    IsSaved select upsert
      (members_with (text "conversation.read" ∷ []))
      (authenticated manager)
      acme
      body
      response
      none
      (some saved)
put_profile-IsSaved_example =
    put_profile-IsSaved select upsert (members_with (text "conversation.read" ∷ []))
      (authenticated manager) acme body none (some saved) response saves
