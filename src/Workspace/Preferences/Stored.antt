-- ===== src/Workspace/Preferences/Stored.antt =====
-- postgres-workspace-notification-preferences-repository.ts and its controller: the rows and the bodies
-- that preferences are read from, and the table of the rows.
use vsn_voice_ai.Prelude.{◌≡◌, refl, true, some, List, [], ◌∷◌, arith, inl, inr, Option-cases}
use vsn_voice_ai.Js.Text.{Text, text}
use vsn_voice_ai.Js.Value
use vsn_voice_ai.Js.Value.{Value, Fields, bool, str, obj}
use vsn_voice_ai.Js.Result.{ok}
use vsn_voice_ai.Js.Exec.{Exec}
use vsn_voice_ai.Workspace.TeamStatus.{TeamFailure}
use vsn_voice_ai.Workspace.Settings.{has_keys}
use vsn_voice_ai.Workspace.Settings.Stored.{is_row_of-str, HasKeys, has_keys-HasKeys}
use vsn_voice_ai.Workspace.Preferences.{
  PreferenceValues, PreferencesRow, preferences_of, preference_keys, to_preferences,
  parse_preferences,
}

-- Four values that are the four flags.
pub record AreFlags (m t a e : Value) (p : PreferenceValues) : Type 0 where
  pub meeting_reminders : m ≡ bool p.meeting_reminders
  pub transcript_ready : t ≡ bool p.transcript_ready
  pub action_items : a ≡ bool p.action_items
  pub desktop_link_events : e ≡ bool p.desktop_link_events

-- The row is the subject's in the organization, and holds the flags.
pub record IsRowOf (s o : Text) (row : PreferencesRow) (p : PreferenceValues) : Type 0 where
  pub subject_id : row.subject_id ≡ str s
  pub organization_id : row.organization_id ≡ str o
  pub flags :
      AreFlags row.meeting_reminders row.transcript_ready row.action_items row.desktop_link_events p

-- The body is an object with the four flags, and nothing else.
pub record IsBodyOf (body : Value) (p : PreferenceValues) : Type 0 where
  pub fields : Fields
  pub object : body ≡ obj fields
  pub keys :
      HasKeys
        (text "meeting_reminders"
          ∷ text "transcript_ready"
          ∷ text "action_items"
          ∷ text "desktop_link_events"
          ∷ [])
        fields
  pub flags :
      AreFlags
        (Value.get fields (text "meeting_reminders"))
        (Value.get fields (text "transcript_ready"))
        (Value.get fields (text "action_items"))
        (Value.get fields (text "desktop_link_events"))
        p

preferences_of-AreFlags :
    (m t a e : Value) (p : PreferenceValues) → preferences_of m t a e ≡ some p → AreFlags m t a e p
preferences_of-AreFlags (bool m) (bool t) (bool a) (bool e) p h = ground arith
preferences_of-AreFlags _ _ _ _ p h = cc

pub to_preferences-IsRowOf :
    (s o : Text) (row : PreferencesRow) (p : PreferenceValues)
    → to_preferences s o row ≡ ok p
    → IsRowOf s o row p
unfolding to_preferences
to_preferences-IsRowOf s o row p h =
    elim (Option-cases (
      preferences_of row.meeting_reminders row.transcript_ready row.action_items
        row.desktop_link_events)) [
          | inl none_ ↦ ground arith
          | inr (q, e) ↦ record {
            subject_id = is_row_of-str s row.subject_id (ground arith);
            organization_id = is_row_of-str o row.organization_id (ground arith);
            flags = preferences_of-AreFlags _ _ _ _ p (ground arith);
          }
        ]

pub parse_preferences-IsBodyOf :
    (body : Value) (p : PreferenceValues) → parse_preferences body ≡ ok p → IsBodyOf body p
unfolding parse_preferences
parse_preferences-IsBodyOf (obj fs) p h =
    elim (Option-cases (
      preferences_of (Value.get fs (text "meeting_reminders"))
        (Value.get fs (text "transcript_ready")) (Value.get fs (text "action_items"))
        (Value.get fs (text "desktop_link_events")))) [
          | inl none_ ↦ ground arith
          | inr (q, e) ↦
              let keyed : has_keys preference_keys fs ≡ true = ground arith in
              record {
                fields = fs;
                object = refl;
                keys = has_keys-HasKeys _ fs keyed;
                flags = preferences_of-AreFlags _ _ _ _ p (ground arith);
              }
        ]
parse_preferences-IsBodyOf _ p h = cc

-- The table as its two statements use it: the upsert returns the one row of its values, by their
-- columns, and from then on the select of its key returns that row.
pub record IsTable {D : Type 0}
    (select upsert : List Value → Exec D TeamFailure (List PreferencesRow)) : Type 0 where
  pub written :
      (s o m t a e : Value) (rows : List PreferencesRow) (d d' : D)
      → upsert (o ∷ s ∷ m ∷ t ∷ a ∷ e ∷ []) d ≡ (ok rows, d')
      → rows
        ≡ record {
          subject_id = s;
          organization_id = o;
          meeting_reminders = m;
          transcript_ready = t;
          action_items = a;
          desktop_link_events = e;
        }
          ∷ []
  pub kept :
      (s o m t a e : Value) (rows : List PreferencesRow) (d d' : D)
      → upsert (o ∷ s ∷ m ∷ t ∷ a ∷ e ∷ []) d ≡ (ok rows, d')
      → select (o ∷ s ∷ []) d' ≡ (ok rows, d')
