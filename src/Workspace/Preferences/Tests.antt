-- ===== src/Workspace/Preferences/Tests.antt =====
-- Preferences saved by a member and read again.
use vsn_voice_ai.Prelude.{◌≡◌, refl, subst, true, false, Option, none, some, List, [], ◌∷◌, arith}
use vsn_voice_ai.Js.Text.{text, text_eq, trim, includes}
use vsn_voice_ai.Js.Value
use vsn_voice_ai.Js.Value.{Value, bool, str, obj, field, end}
use vsn_voice_ai.Js.Result.{ok}
use vsn_voice_ai.Js.Exec.{Exec}
use vsn_voice_ai.Identity.Principal.{is_bounded_identifier, is_valid_principal}
use vsn_voice_ai.Identity.Trusted.{authenticated}
use vsn_voice_ai.Organizations.Authorization.{authorize_tenant_access}
use vsn_voice_ai.Workspace.TeamStatus.{TeamFailure, require_identifier}
use vsn_voice_ai.Workspace.TeamStatus.Tests.{manager, acme, members_with}
use vsn_voice_ai.Workspace.Preferences.{
  PreferencesRow, PreferencesResponse, to_preferences, postgres_preferences, authorize_preferences,
  save_preferences, parse_preferences, get_preferences, put_preferences,
}
use vsn_voice_ai.Workspace.Preferences.Stored.{IsBodyOf, IsTable}
use vsn_voice_ai.Workspace.Preferences.Saved.{IsSaved, put_preferences-get_preferences}

-- A table that holds at most one row.
abbrev rows_of : Option PreferencesRow → List PreferencesRow
rows_of none = []
rows_of (some row) = row ∷ []

abbrev select : List Value → Exec (Option PreferencesRow) TeamFailure (List PreferencesRow)
select values row = (ok (rows_of row), row)

abbrev upsert : List Value → Exec (Option PreferencesRow) TeamFailure (List PreferencesRow)
upsert (o ∷ s ∷ m ∷ t ∷ a ∷ d ∷ []) row =
    let new : PreferencesRow = record {
      subject_id = s;
      organization_id = o;
      meeting_reminders = m;
      transcript_ready = t;
      action_items = a;
      desktop_link_events = d;
    } in
    (ok (new ∷ []), some new)
upsert values row = (ok [], row)

abbrev body : Value
body = obj (
    field (text "action_items") (bool false) (
      field (text "meeting_reminders") (bool true) (
        field (text "transcript_ready") (bool true)
          (field (text "desktop_link_events") (bool false) end))))

abbrev saved : PreferencesRow
saved = record {
  subject_id = str (text "ann");
  organization_id = str acme;
  meeting_reminders = bool true;
  transcript_ready = bool true;
  action_items = bool false;
  desktop_link_events = bool false;
}

abbrev response : PreferencesResponse
response = record {
  organization_id = acme;
  values = record {
    meeting_reminders = true;
    transcript_ready = true;
    action_items = false;
    desktop_link_events = false;
  };
}

saves :
    put_preferences
      (postgres_preferences select upsert)
      (members_with (text "conversation.read" ∷ []))
      (authenticated manager)
      acme
      body
      none
    ≡ (ok response, some saved)
unfolding put_preferences save_preferences authorize_preferences parse_preferences
    require_identifier postgres_preferences to_preferences authorize_tenant_access
    is_valid_principal is_bounded_identifier Value.keys Value.get text_eq trim includes
saves = refl

read_update :
    (s o m t a e : Value) (rows : List PreferencesRow) (d d' : Option PreferencesRow)
    → upsert (o ∷ s ∷ m ∷ t ∷ a ∷ e ∷ []) d ≡ (ok rows, d')
    → select (o ∷ s ∷ []) d' ≡ (ok rows, d')
read_update s o m t a e rows d d' h = subst (λ x. select (o ∷ s ∷ []) x.1 ≡ x) h refl

write_update :
    (s o m t a e : Value) (rows : List PreferencesRow) (d d' : Option PreferencesRow)
    → upsert (o ∷ s ∷ m ∷ t ∷ a ∷ e ∷ []) d ≡ (ok rows, d')
    → rows
      ≡ record {
        subject_id = s;
        organization_id = o;
        meeting_reminders = m;
        transcript_ready = t;
        action_items = a;
        desktop_link_events = e;
      }
        ∷ []
write_update s o m t a e rows d d' h = ground arith

abbrev table : IsTable select upsert
table = record { written = write_update; kept = read_update }

put_preferences-get_preferences_example :
    IsSaved select upsert
      (members_with (text "conversation.read" ∷ []))
      (authenticated manager)
      acme
      body
      response
      none
      (some saved)
    × IsBodyOf body response.values
    × (get_preferences
          (postgres_preferences select upsert)
          (members_with (text "conversation.read" ∷ []))
          (authenticated manager)
          acme
          (some saved)
        ≡ (ok response, some saved))
put_preferences-get_preferences_example =
    put_preferences-get_preferences select upsert (members_with (text "conversation.read" ∷ []))
      (authenticated manager) acme table body none (some saved) response saves
