-- ===== src/Workspace/OrganizationProfile/Stored.antt =====
-- postgres-workspace-organization-profile-repository.ts and its controller: the rows and the bodies that
-- an organization's name is read from, and the table of the rows.
use vsn_voice_ai.Prelude.{◌≡◌, refl, ap, true, List, [], ◌∷◌, arith}
use vsn_voice_ai.Js.Text.{Text, text, text_eq_iff}
use vsn_voice_ai.Js.Value
use vsn_voice_ai.Js.Value.{Value, Fields, str, obj}
use vsn_voice_ai.Js.Result.{ok}
use vsn_voice_ai.Js.Exec.{Exec}
use vsn_voice_ai.Workspace.TeamStatus.{TeamFailure}
use vsn_voice_ai.Workspace.Settings.Stored.{
  IsProfileText, is_profile_value-IsProfileText, is_row_of-str,
}
use vsn_voice_ai.Workspace.OrganizationProfile.{
  OrganizationProfileValues, OrganizationProfileRow, to_organization_profile, is_display_name_key,
  parse_organization_profile,
}

-- The row is the organization's, and holds the name.
pub record IsRowOf (o : Text) (row : OrganizationProfileRow) (p : OrganizationProfileValues)
    : Type 0 where
  pub organization_id : row.organization_id ≡ str o
  pub display_name : row.display_name ≡ str p.display_name
  pub valid : IsProfileText 100 p.display_name

-- The body is an object with the name, and nothing else.
pub record IsBodyOf (body : Value) (p : OrganizationProfileValues) : Type 0 where
  pub fields : Fields
  pub object : body ≡ obj fields
  pub keys : Value.keys fields ≡ text "display_name" ∷ []
  pub display_name : Value.get fields (text "display_name") ≡ str p.display_name
  pub valid : IsProfileText 100 p.display_name

pub to_organization_profile-IsRowOf :
    (o : Text) (row : OrganizationProfileRow) (p : OrganizationProfileValues)
    → to_organization_profile o row ≡ ok p
    → IsRowOf o row p
unfolding to_organization_profile
to_organization_profile-IsRowOf o row p h =
    let (name, named) = is_profile_value-IsProfileText 100 row.display_name (ground arith) in
    record {
      organization_id = is_row_of-str o row.organization_id (ground arith);
      display_name = ground (arith, name);
      valid = ground (arith, named);
    }

display_name_only : (ks : List Text) → is_display_name_key ks ≡ true → ks ≡ text "display_name" ∷ []
display_name_only [] h = cc
display_name_only (k ∷ []) h = ap (λ x. x ∷ []) ((text_eq_iff k (text "display_name")).0 h)
display_name_only (k ∷ l ∷ ks) h = cc

pub parse_organization_profile-IsBodyOf :
    (body : Value) (p : OrganizationProfileValues)
    → parse_organization_profile body ≡ ok p
    → IsBodyOf body p
unfolding parse_organization_profile
parse_organization_profile-IsBodyOf (obj fs) p h =
    let (name, named) =
      is_profile_value-IsProfileText 100 (Value.get fs (text "display_name")) (ground arith) in
    record {
      fields = fs;
      object = refl;
      keys = display_name_only (Value.keys fs) (ground arith);
      display_name = ground (arith, name);
      valid = ground (arith, named);
    }
parse_organization_profile-IsBodyOf _ p h = cc

-- The table as its two statements use it: the upsert returns the one row of its values, by their
-- columns, and from then on the select of its key returns that row.
pub record IsTable {D : Type 0}
    (select upsert : List Value → Exec D TeamFailure (List OrganizationProfileRow)) : Type 0 where
  pub written :
      (o n : Value) (rows : List OrganizationProfileRow) (d d' : D)
      → upsert (o ∷ n ∷ []) d ≡ (ok rows, d')
      → rows ≡ record { organization_id = o; display_name = n } ∷ []
  pub kept :
      (o n : Value) (rows : List OrganizationProfileRow) (d d' : D)
      → upsert (o ∷ n ∷ []) d ≡ (ok rows, d')
      → select (o ∷ []) d' ≡ (ok rows, d')
