-- ===== src/Workspace/OrganizationProfile.antt =====
-- workspace-organization-profile-repository.ts, postgres-workspace-organization-profile-repository.ts
-- and workspace-organization-profile.controller.ts. The database client is a parameter: the two
-- statements with their values, that return rows of any values or throw.
pub mod Stored
pub mod Saved
pub mod Tests
use vsn_voice_ai.Prelude.{Bool, true, false, ◌&&◌, Option, none, some, List, [], ◌∷◌, if◌then◌else◌}
use vsn_voice_ai.Js.Text.{Text, text, text_eq}
use vsn_voice_ai.Js.Value
use vsn_voice_ai.Js.Value.{Value, str, obj}
use vsn_voice_ai.Js.Result.{Result, ok, err}
use vsn_voice_ai.Js.Exec.{Exec, pure, throw, lift, guard, ◌>>=◌, ◌>>◌}
use vsn_voice_ai.Identity.Principal.{AuthenticatedPrincipal, is_bounded_identifier}
use vsn_voice_ai.Identity.Trusted.{TrustedPrincipalResolution}
use vsn_voice_ai.Organizations.Membership.{OrganizationMembership}
use vsn_voice_ai.Organizations.Postgres.{column}
use vsn_voice_ai.Workspace.TeamStatus.{
  TeamFailure, invalid_argument, data_integrity, persistence_unavailable, HttpError, bad_request,
}
use vsn_voice_ai.Workspace.Settings.{
  optional_row, one_row, is_profile_text, is_profile_value, is_row_of, authorize_scope, handle,
}
use mathlib.Core.Option.{get_or}

pub record OrganizationProfileValues : Type 0 where
  pub display_name : Text

pub record OrganizationProfileResponse : Type 0 where
  pub organization_id : Text
  pub values : OrganizationProfileValues

pub record OrganizationProfileRepository (D : Type 0) : Type 0 where
  pub get_organization_profile : Text → Exec D TeamFailure (Option OrganizationProfileValues)
  pub put_organization_profile :
      Text → OrganizationProfileValues → Exec D TeamFailure OrganizationProfileValues

abbrev pub default_organization_profile : OrganizationProfileValues
default_organization_profile = record { display_name = [] }

-- `authorizeOrganizationProfile`; the subject is not used.
unfoldable pub authorize_organization_profile :
    Option AuthenticatedPrincipal
    → Option OrganizationMembership
    → Text
    → Text
    → Result TeamFailure (Text × Text)
unfolding authorize_scope
authorize_organization_profile principal membership organization_id permission =
    authorize_scope permission principal membership organization_id

abbrev pub organization_response : Text → OrganizationProfileValues → OrganizationProfileResponse
organization_response organization_id values = record {
  organization_id = organization_id;
  values = values;
}

module _ {D : Type 0} (repository : OrganizationProfileRepository D) where
  unfoldable pub load_organization_profile :
      Option AuthenticatedPrincipal
      → Option OrganizationMembership
      → Text
      → Exec D TeamFailure OrganizationProfileResponse
  unfolding authorize_organization_profile
  load_organization_profile principal membership organization_id = do
    scope ← lift (
        authorize_organization_profile principal membership organization_id
          (text "conversation.read"))
    stored ← repository.get_organization_profile scope.1
    pure (organization_response scope.1 (get_or stored default_organization_profile))

  unfoldable pub save_organization_profile :
      Option AuthenticatedPrincipal
      → Option OrganizationMembership
      → Text
      → OrganizationProfileValues
      → Exec D TeamFailure OrganizationProfileResponse
  unfolding authorize_organization_profile
  save_organization_profile principal membership organization_id profile = do
    scope ←
        lift
          (authorize_organization_profile principal membership organization_id (text "team.manage"))
    stored ← repository.put_organization_profile scope.1 profile
    pure (organization_response scope.1 stored)

-- RejectingWorkspaceOrganizationProfileRepository
unfoldable pub rejecting_organization_profiles : {D : Type 0} → OrganizationProfileRepository D
rejecting_organization_profiles = record {
  get_organization_profile = λ organization_id. throw persistence_unavailable;
  put_organization_profile = λ organization_id profile. throw persistence_unavailable;
}

pub record OrganizationProfileRow : Type 0 where
  pub organization_id : Value
  pub display_name : Value

-- `toProfile`
unfoldable pub to_organization_profile :
    Text → OrganizationProfileRow → Result TeamFailure OrganizationProfileValues
to_organization_profile organization_id row =
    if is_row_of organization_id row.organization_id && is_profile_value 100 row.display_name
    then ok (record { display_name = column row.display_name })
    else err data_integrity

abbrev pub organization_values : Text → OrganizationProfileValues → List Value
organization_values organization_id profile = str organization_id ∷ str profile.display_name ∷ []

-- PostgresWorkspaceOrganizationProfileRepository
unfoldable pub postgres_organization_profiles :
    {D : Type 0}
    → (List Value → Exec D TeamFailure (List OrganizationProfileRow))
    → (List Value → Exec D TeamFailure (List OrganizationProfileRow))
    → OrganizationProfileRepository D
unfolding is_profile_text to_organization_profile
postgres_organization_profiles select upsert = record {
  get_organization_profile = λ organization_id. do
    guard (is_bounded_identifier organization_id 128) invalid_argument
    rows ← select (str organization_id ∷ [])
    lift (optional_row (to_organization_profile organization_id) rows);
  put_organization_profile = λ organization_id profile. do
    guard (is_bounded_identifier organization_id 128) invalid_argument
    guard (is_profile_text 100 profile.display_name) invalid_argument
    rows ← upsert (organization_values organization_id profile)
    lift (one_row (to_organization_profile organization_id) rows);
}

-- `keys.length !== 1 || keys[0] !== 'display_name'`, negated
abbrev pub is_display_name_key : List Text → Bool
is_display_name_key (k ∷ []) = text_eq k (text "display_name")
is_display_name_key _ = false

-- `parseProfile`
unfoldable pub parse_organization_profile : Value → Result HttpError OrganizationProfileValues
parse_organization_profile (obj fs) =
    if is_display_name_key (Value.keys fs)
      && is_profile_value 100 (Value.get fs (text "display_name"))
    then ok (record { display_name = column (Value.get fs (text "display_name")) })
    else err bad_request
parse_organization_profile _ = err bad_request

module _ {D E : Type 0} (repository : OrganizationProfileRepository D)
    (memberships : AuthenticatedPrincipal → Text → Result E (Option OrganizationMembership))
    (identity : TrustedPrincipalResolution) (organization_id : Text) where
  -- The controller's `getProfile`
  unfoldable pub get_organization : Exec D HttpError OrganizationProfileResponse
  unfolding load_organization_profile
  get_organization =
      handle memberships identity organization_id (ok tt) λ principal membership o body.
        load_organization_profile repository (some principal) (some membership) o

  -- The controller's `putProfile`
  unfoldable pub put_organization : Value → Exec D HttpError OrganizationProfileResponse
  unfolding save_organization_profile parse_organization_profile
  put_organization body =
      handle memberships identity organization_id (parse_organization_profile body)
        λ principal membership o profile.
          save_organization_profile repository (some principal) (some membership) o profile
