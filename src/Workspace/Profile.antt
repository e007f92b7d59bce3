-- ===== src/Workspace/Profile.antt =====
-- workspace-profile-repository.ts, postgres-workspace-profile-repository.ts and
-- workspace-profile.controller.ts. The database client is a parameter: the two statements with their
-- values, that return rows of any values or throw.
pub mod Stored
pub mod Saved
pub mod Tests
use vsn_voice_ai.Prelude.{
  Bool, true, false, ◌&&◌, not, Option, none, some, List, [], ◌∷◌, if◌then◌else◌,
}
use vsn_voice_ai.Js.Text.{Text, text}
use vsn_voice_ai.Js.Value
use vsn_voice_ai.Js.Value.{Value, str, obj}
use vsn_voice_ai.Js.Result
use vsn_voice_ai.Js.Result.{Result, ok, err, map_err}
use vsn_voice_ai.Js.Exec.{Exec, pure, throw, lift, guard, ◌>>=◌, ◌>>◌}
use vsn_voice_ai.Identity.Principal.{AuthenticatedPrincipal, is_bounded_identifier}
use vsn_voice_ai.Identity.Trusted.{TrustedPrincipalResolution}
use vsn_voice_ai.Organizations.Membership.{OrganizationMembership}
use vsn_voice_ai.Organizations.Authorization.{authorize_tenant_access}
use vsn_voice_ai.Organizations.Postgres.{column}
use vsn_voice_ai.Workspace.TeamStatus.{
  TeamFailure, invalid_argument, data_integrity, persistence_unavailable, denied, HttpError,
  bad_request, require_identifier,
}
use vsn_voice_ai.Workspace.Settings.{
  optional_row, one_row, is_profile_text, is_profile_value, is_row_of, has_keys, authorize_scope,
  handle,
}
use mathlib.Core.Option.{get_or}

pub record WorkspaceProfileValues : Type 0 where
  pub display_name : Text
  pub job_title : Text

pub record WorkspaceProfileResponse : Type 0 where
  pub organization_id : Text
  pub values : WorkspaceProfileValues

pub record WorkspaceProfileRepository (D : Type 0) : Type 0 where
  pub get_profile : Text → Text → Exec D TeamFailure (Option WorkspaceProfileValues)
  pub put_profile : Text → Text → WorkspaceProfileValues → Exec D TeamFailure WorkspaceProfileValues

abbrev pub default_profile : WorkspaceProfileValues
default_profile = record { display_name = []; job_title = [] }

-- `authorizeProfile`: the subject and the organization.
unfoldable pub authorize_profile :
    Option AuthenticatedPrincipal
    → Option OrganizationMembership
    → Text
    → Result TeamFailure (Text × Text)
unfolding authorize_scope
authorize_profile principal membership organization_id =
    authorize_scope (text "conversation.read") principal membership organization_id

abbrev pub to_response : Text → WorkspaceProfileValues → WorkspaceProfileResponse
to_response organization_id values = record { organization_id = organization_id; values = values }

module _ {D : Type 0} (repository : WorkspaceProfileRepository D) where
  unfoldable pub load_workspace_profile :
      Option AuthenticatedPrincipal
      → Option OrganizationMembership
      → Text
      → Exec D TeamFailure WorkspaceProfileResponse
  unfolding authorize_profile
  load_workspace_profile principal membership organization_id = do
    scope ← lift (authorize_profile principal membership organization_id)
    stored ← repository.get_profile scope.0 scope.1
    pure (to_response scope.1 (get_or stored default_profile))

  unfoldable pub save_workspace_profile :
      Option AuthenticatedPrincipal
      → Option OrganizationMembership
      → Text
      → WorkspaceProfileValues
      → Exec D TeamFailure WorkspaceProfileResponse
  unfolding authorize_profile
  save_workspace_profile principal membership organization_id profile = do
    scope ← lift (authorize_profile principal membership organization_id)
    stored ← repository.put_profile scope.0 scope.1 profile
    pure (to_response scope.1 stored)

-- RejectingWorkspaceProfileRepository
unfoldable pub rejecting_profiles : {D : Type 0} → WorkspaceProfileRepository D
rejecting_profiles = record {
  get_profile = λ subject_id organization_id. throw persistence_unavailable;
  put_profile = λ subject_id organization_id profile. throw persistence_unavailable;
}

pub record WorkspaceProfileRow : Type 0 where
  pub subject_id : Value
  pub organization_id : Value
  pub display_name : Value
  pub job_title : Value

-- `requireScope`
abbrev pub is_scope : Text → Text → Bool
is_scope subject_id organization_id =
    is_bounded_identifier subject_id 128 && is_bounded_identifier organization_id 128

-- `requireProfile`
unfoldable pub is_profile : WorkspaceProfileValues → Bool
is_profile profile =
    is_profile_text 80 profile.display_name && is_profile_text 120 profile.job_title

-- `toProfile`
unfoldable pub to_profile :
    Text → Text → WorkspaceProfileRow → Result TeamFailure WorkspaceProfileValues
to_profile subject_id organization_id row =
    if is_row_of subject_id row.subject_id
      && is_row_of organization_id row.organization_id
      && is_profile_value 80 row.display_name
      && is_profile_value 120 row.job_title
    then ok (record { display_name = column row.display_name; job_title = column row.job_title })
    else err data_integrity

abbrev pub profile_values : Text → Text → WorkspaceProfileValues → List Value
profile_values subject_id organization_id profile =
    str organization_id ∷ str subject_id ∷ str profile.display_name ∷ str profile.job_title ∷ []

-- PostgresWorkspaceProfileRepository
unfoldable pub postgres_profiles :
    {D : Type 0}
    → (List Value → Exec D TeamFailure (List WorkspaceProfileRow))
    → (List Value → Exec D TeamFailure (List WorkspaceProfileRow))
    → WorkspaceProfileRepository D
unfolding is_profile to_profile
postgres_profiles select upsert = record {
  get_profile = λ subject_id organization_id. do
    guard (is_scope subject_id organization_id) invalid_argument
    rows ← select (str organization_id ∷ str subject_id ∷ [])
    lift (optional_row (to_profile subject_id organization_id) rows);
  put_profile = λ subject_id organization_id profile. do
    guard (is_scope subject_id organization_id) invalid_argument
    guard (is_profile profile) invalid_argument
    rows ← upsert (profile_values subject_id organization_id profile)
    lift (one_row (to_profile subject_id organization_id) rows);
}

abbrev pub profile_keys : List Text
profile_keys = text "display_name" ∷ text "job_title" ∷ []

abbrev pub require_profile_text : Value → Bool → Result HttpError Text
require_profile_text v true = ok (column v)
require_profile_text v false = err bad_request

abbrev pub profile_of :
    Result HttpError Text → Result HttpError Text → Result HttpError WorkspaceProfileValues
profile_of (err e) job_title = err e
profile_of (ok display_name) (err e) = err e
profile_of (ok display_name) (ok job_title) =
    ok (record { display_name = display_name; job_title = job_title })

-- `parseProfile`
unfoldable pub parse_profile : Value → Result HttpError WorkspaceProfileValues
parse_profile (obj fs) =
    if has_keys profile_keys fs
    then profile_of
        (require_profile_text (Value.get fs (text "display_name"))
          (is_profile_value 80 (Value.get fs (text "display_name"))))
        (require_profile_text (Value.get fs (text "job_title"))
          (is_profile_value 120 (Value.get fs (text "job_title"))))
    else err bad_request
parse_profile _ = err bad_request

module _ {D E : Type 0} (repository : WorkspaceProfileRepository D)
    (memberships : AuthenticatedPrincipal → Text → Result E (Option OrganizationMembership))
    (identity : TrustedPrincipalResolution) (organization_id : Text) where
  -- The controller's `getProfile`
  unfoldable pub get_profile : Exec D HttpError WorkspaceProfileResponse
  unfolding load_workspace_profile
  get_profile = handle memberships identity organization_id (ok tt) λ principal membership o body.
      load_workspace_profile repository (some principal) (some membership) o

  -- The controller's `putProfile`
  unfoldable pub put_profile : Value → Exec D HttpError WorkspaceProfileResponse
  unfolding save_workspace_profile parse_profile
  put_profile body =
      handle memberships identity organization_id (parse_profile body)
        λ principal membership o profile.
          save_workspace_profile repository (some principal) (some membership) o profile
