-- ===== src/Workspace/Preferences.antt =====
-- workspace-notification-preferences-repository.ts, its Postgres implementation and
-- workspace-notification-preferences.controller.ts. The database client is a parameter: the two
-- statements with their values, that return rows of any values or throw.
pub mod Stored
pub mod Saved
pub mod Tests
use vsn_voice_ai.Prelude.{
  Bool, true, false, ◌&&◌, ◌||◌, not, Option, none, some, List, [], ◌∷◌, ltb, ◌==◌, length,
  if◌then◌else◌,
}
use vsn_voice_ai.Js.Text.{Text, text, trim}
use vsn_voice_ai.Js.Value
use vsn_voice_ai.Js.Value.{Value, bool, str, obj}
use vsn_voice_ai.Js.Result
use vsn_voice_ai.Js.Result.{Result, ok, err, map_err}
use vsn_voice_ai.Js.Exec.{Exec, pure, throw, lift, guard, ◌>>=◌, ◌>>◌}
use vsn_voice_ai.Identity.Principal.{AuthenticatedPrincipal, is_bounded_identifier}
use vsn_voice_ai.Identity.Trusted.{TrustedPrincipalResolution}
use vsn_voice_ai.Organizations.Membership.{OrganizationMembership}
use vsn_voice_ai.Organizations.Authorization.{authorize_tenant_access}
use vsn_voice_ai.Workspace.TeamStatus.{
  TeamFailure, invalid_argument, data_integrity, persistence_unavailable, denied, HttpError,
  bad_request,
}
use vsn_voice_ai.Workspace.Settings.{optional_row, one_row, is_row_of, has_keys, handle}
use mathlib.Core.Option.{get_or}

pub record PreferenceValues : Type 0 where
  pub meeting_reminders : Bool
  pub transcript_ready : Bool
  pub action_items : Bool
  pub desktop_link_events : Bool

pub record PreferencesResponse : Type 0 where
  pub organization_id : Text
  pub values : PreferenceValues

pub record PreferencesRepository (D : Type 0) : Type 0 where
  pub get : Text → Text → Exec D TeamFailure (Option PreferenceValues)
  pub put : Text → Text → PreferenceValues → Exec D TeamFailure PreferenceValues

abbrev pub default_preferences : PreferenceValues
default_preferences = record {
  meeting_reminders = true;
  transcript_ready = true;
  action_items = true;
  desktop_link_events = true;
}

-- `authorizePreferences`: the subject and the trimmed organization.
unfoldable pub authorize_preferences :
    Option AuthenticatedPrincipal
    → Option OrganizationMembership
    → Text
    → Result TeamFailure (Text × Text)
authorize_preferences principal membership raw_organization_id =
    Result.◌>>◌
      (Result.guard
        (not
          (length (trim raw_organization_id) == 0 || ltb 128 (length (trim raw_organization_id))))
        invalid_argument)
      (Result.◌>>=◌
        (map_err denied (
          authorize_tenant_access principal membership (trim raw_organization_id)
            (text "conversation.read")))
        λ context. ok (context.subject_id, trim raw_organization_id))

abbrev pub preferences_response : Text → PreferenceValues → PreferencesResponse
preferences_response organization_id values = record {
  organization_id = organization_id;
  values = values;
}

module _ {D : Type 0} (repository : PreferencesRepository D) where
  unfoldable pub load_preferences :
      Option AuthenticatedPrincipal
      → Option OrganizationMembership
      → Text
      → Exec D TeamFailure PreferencesResponse
  unfolding authorize_preferences
  load_preferences principal membership organization_id = do
    scope ← lift (authorize_preferences principal membership organization_id)
    stored ← repository.get scope.0 scope.1
    pure (preferences_response scope.1 (get_or stored default_preferences))

  unfoldable pub save_preferences :
      Option AuthenticatedPrincipal
      → Option OrganizationMembership
      → Text
      → PreferenceValues
      → Exec D TeamFailure PreferencesResponse
  unfolding authorize_preferences
  save_preferences principal membership organization_id preferences = do
    scope ← lift (authorize_preferences principal membership organization_id)
    stored ← repository.put scope.0 scope.1 preferences
    pure (preferences_response scope.1 stored)

-- RejectingWorkspaceNotificationPreferencesRepository
unfoldable pub rejecting_preferences : {D : Type 0} → PreferencesRepository D
rejecting_preferences = record {
  get = λ subject_id organization_id. throw persistence_unavailable;
  put = λ subject_id organization_id preferences. throw persistence_unavailable;
}

pub record PreferencesRow : Type 0 where
  pub subject_id : Value
  pub organization_id : Value
  pub meeting_reminders : Value
  pub transcript_ready : Value
  pub action_items : Value
  pub desktop_link_events : Value

-- The four flags, if each value is a Boolean.
abbrev pub preferences_of : Value → Value → Value → Value → Option PreferenceValues
preferences_of (bool m) (bool t) (bool a) (bool d) = some (record {
  meeting_reminders = m;
  transcript_ready = t;
  action_items = a;
  desktop_link_events = d;
})
preferences_of _ _ _ _ = none

abbrev pub valid_or : {E A : Type 0} → E → Option A → Result E A
valid_or e none = err e
valid_or e (some a) = ok a

-- `toPreferences`
unfoldable pub to_preferences : Text → Text → PreferencesRow → Result TeamFailure PreferenceValues
to_preferences subject_id organization_id row =
    if is_row_of subject_id row.subject_id && is_row_of organization_id row.organization_id
    then valid_or data_integrity (
        preferences_of row.meeting_reminders row.transcript_ready row.action_items
          row.desktop_link_events)
    else err data_integrity

-- `requireScope`
abbrev pub is_scope : Text → Text → Bool
is_scope subject_id organization_id =
    is_bounded_identifier subject_id 128 && is_bounded_identifier organization_id 128

abbrev pub preference_values : Text → Text → PreferenceValues → List Value
preference_values subject_id organization_id preferences =
    str organization_id
    ∷ str subject_id
    ∷ bool preferences.meeting_reminders
    ∷ bool preferences.transcript_ready
    ∷ bool preferences.action_items
    ∷ bool preferences.desktop_link_events
    ∷ []

-- PostgresWorkspaceNotificationPreferencesRepository
unfoldable pub postgres_preferences :
    {D : Type 0}
    → (List Value → Exec D TeamFailure (List PreferencesRow))
    → (List Value → Exec D TeamFailure (List PreferencesRow))
    → PreferencesRepository D
unfolding to_preferences
postgres_preferences select upsert = record {
  get = λ subject_id organization_id. do
    guard (is_scope subject_id organization_id) invalid_argument
    rows ← select (str organization_id ∷ str subject_id ∷ [])
    lift (optional_row (to_preferences subject_id organization_id) rows);
  put = λ subject_id organization_id preferences. do
    guard (is_scope subject_id organization_id) invalid_argument
    rows ← upsert (preference_values subject_id organization_id preferences)
    lift (one_row (to_preferences subject_id organization_id) rows);
}

abbrev pub preference_keys : List Text
preference_keys =
    text "meeting_reminders"
    ∷ text "transcript_ready"
    ∷ text "action_items"
    ∷ text "desktop_link_events"
    ∷ []

-- `parsePreferences`
unfoldable pub parse_preferences : Value → Result HttpError PreferenceValues
parse_preferences (obj fs) =
    if has_keys preference_keys fs
    then valid_or bad_request (
        preferences_of (Value.get fs (text "meeting_reminders"))
          (Value.get fs (text "transcript_ready")) (Value.get fs (text "action_items"))
          (Value.get fs (text "desktop_link_events")))
    else err bad_request
parse_preferences _ = err bad_request

module _ {D E : Type 0} (repository : PreferencesRepository D)
    (memberships : AuthenticatedPrincipal → Text → Result E (Option OrganizationMembership))
    (identity : TrustedPrincipalResolution) (organization_id : Text) where
  -- The controller's `getPreferences`
  unfoldable pub get_preferences : Exec D HttpError PreferencesResponse
  unfolding load_preferences
  get_preferences =
      handle memberships identity organization_id (ok tt) λ principal membership o body.
        load_preferences repository (some principal) (some membership) o

  -- The controller's `putPreferences`
  unfoldable pub put_preferences : Value → Exec D HttpError PreferencesResponse
  unfolding save_preferences parse_preferences
  put_preferences body =
      handle memberships identity organization_id (parse_preferences body)
        λ principal membership o preferences.
          save_preferences repository (some principal) (some membership) o preferences
