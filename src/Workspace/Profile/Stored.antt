-- ===== src/Workspace/Profile/Stored.antt =====
-- postgres-workspace-profile-repository.ts and workspace-profile.controller.ts: the rows and the bodies
-- that a profile is read from.
use vsn_voice_ai.Prelude.{◌≡◌, refl, true, [], ◌∷◌, arith}
use vsn_voice_ai.Js.Text.{Text, text}
use vsn_voice_ai.Js.Value
use vsn_voice_ai.Js.Value.{Value, Fields, str, obj}
use vsn_voice_ai.Js.Result.{ok}
use vsn_voice_ai.Workspace.Settings.{has_keys}
use vsn_voice_ai.Workspace.Settings.Stored.{
  IsProfileText, is_profile_value-IsProfileText, is_row_of-str, HasKeys, has_keys-HasKeys,
}
use vsn_voice_ai.Workspace.Profile.{
  WorkspaceProfileValues, WorkspaceProfileRow, to_profile, parse_profile,
}

-- Texts within the bounds of a profile.
pub record IsProfile (p : WorkspaceProfileValues) : Type 0 where
  pub display_name : IsProfileText 80 p.display_name
  pub job_title : IsProfileText 120 p.job_title

-- The row is the subject's in the organization, and holds the profile.
pub record IsRowOf (s o : Text) (row : WorkspaceProfileRow) (p : WorkspaceProfileValues)
    : Type 0 where
  pub subject_id : row.subject_id ≡ str s
  pub organization_id : row.organization_id ≡ str o
  pub display_name : row.display_name ≡ str p.display_name
  pub job_title : row.job_title ≡ str p.job_title
  pub valid : IsProfile p

-- The body is an object with the two texts of the profile, and nothing else.
pub record IsBodyOf (body : Value) (p : WorkspaceProfileValues) : Type 0 where
  pub fields : Fields
  pub object : body ≡ obj fields
  pub keys : HasKeys (text "display_name" ∷ text "job_title" ∷ []) fields
  pub display_name : Value.get fields (text "display_name") ≡ str p.display_name
  pub job_title : Value.get fields (text "job_title") ≡ str p.job_title
  pub valid : IsProfile p

pub to_profile-IsRowOf :
    (s o : Text) (row : WorkspaceProfileRow) (p : WorkspaceProfileValues)
    → to_profile s o row ≡ ok p
    → IsRowOf s o row p
unfolding to_profile
to_profile-IsRowOf s o row p h =
    let subject = is_row_of-str s row.subject_id (ground arith) in
    let organization = is_row_of-str o row.organization_id (ground arith) in
    let (name, named) = is_profile_value-IsProfileText 80 row.display_name (ground arith) in
    let (title, titled) = is_profile_value-IsProfileText 120 row.job_title (ground arith) in
    record {
      subject_id = subject;
      organization_id = organization;
      display_name = ground (arith, name);
      job_title = ground (arith, title);
      valid = record { display_name = ground (arith, named); job_title = ground (arith, titled) };
    }

pub parse_profile-IsBodyOf :
    (body : Value) (p : WorkspaceProfileValues) → parse_profile body ≡ ok p → IsBodyOf body p
unfolding parse_profile
parse_profile-IsBodyOf (obj fs) p h =
    let keyed : has_keys (text "display_name" ∷ text "job_title" ∷ []) fs ≡ true = ground arith in
    let (name, named) =
      is_profile_value-IsProfileText 80 (Value.get fs (text "display_name")) (ground arith) in
    let (title, titled) =
      is_profile_value-IsProfileText 120 (Value.get fs (text "job_title")) (ground arith) in
    record {
      fields = fs;
      object = refl;
      keys = has_keys-HasKeys _ fs keyed;
      display_name = ground (arith, name);
      job_title = ground (arith, title);
      valid = record { display_name = ground (arith, named); job_title = ground (arith, titled) };
    }
parse_profile-IsBodyOf _ p h = cc
