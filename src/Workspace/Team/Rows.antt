-- ===== src/Workspace/Team/Rows.antt =====
-- postgres-workspace-team-repository.ts: the row that a team member is read from.
use vsn_voice_ai.Prelude.{
  ◌≤◌, ◌≡◌, refl, ap, subst, ◌∙◌, true, List, [], ◌∷◌, arith, ◌⊎◌, Option, none, some, Option-cases,
  inl, inr, length,
}
use vsn_voice_ai.Js.Text.{Text, text, text_eq_iff}
use vsn_voice_ai.Js.Value.{Value, null, str, as_text}
use vsn_voice_ai.Js.Result.{ok}
use vsn_voice_ai.Identity.Principal.{is_bounded_identifier, is_bounded_value}
use vsn_voice_ai.Organizations.Postgres.{column, elements, texts, status_of, display_name_of}
use vsn_voice_ai.Organizations.Postgres.Tokens.{
  AreTokens, is_authority_tokens-AreTokens, IsArrayOf, is_authority_tokens-IsArrayOf,
}
use vsn_voice_ai.Organizations.Membership.{MembershipStatus, active, invited, suspended}
use vsn_voice_ai.Workspace.Settings.Stored.{IsProfileText, is_profile_value-IsProfileText}
use vsn_voice_ai.Workspace.Team.{
  WorkspaceTeamMember, WorkspaceTeamRow, is_member_name, is_stored_name, has_team_columns,
  member_of, to_team_member,
}

-- A member as the repository promises it.
pub record IsMember (m : WorkspaceTeamMember) : Type 0 where
  pub membership_id : is_bounded_identifier m.membership_id 128 ≡ true
  pub display_name : is_member_name m.display_name ≡ true
  pub roles : AreTokens 1 32 128 m.roles

stored_name : (v : Value) → is_stored_name v ≡ true → is_member_name (display_name_of v) ≡ true
unfolding is_member_name
stored_name null h = refl
stored_name (str []) h = refl
stored_name (str (c ∷ s)) h = ground arith
stored_name _ h = cc

-- The text of a status in the database.
pub status_text : MembershipStatus → Text
status_text active = text "active"
status_text invited = text "invited"
status_text suspended = text "suspended"

-- The name of a member in the database: none is null or empty.
abbrev pub IsNameOf : Option Text → Value → Type 0
IsNameOf none v = (v ≡ null) ⊎ (v ≡ str [])
IsNameOf (some s) v = v ≡ str s

-- A name has 1 to 80 characters, trimmed and without control characters.
abbrev pub IsBoundedName : Option Text → Type 0
IsBoundedName none = Unit
IsBoundedName (some s) = (1 ≤ length s) × IsProfileText 80 s

-- The row is the member's, in the organization.
pub record IsMemberOf (o : Text) (row : WorkspaceTeamRow) (m : WorkspaceTeamMember) : Type 0 where
  pub membership_id : row.membership_id ≡ str m.membership_id
  pub subject_id : row.subject_id ≡ str (column row.subject_id)
  pub organization_id : row.organization_id ≡ str o
  pub status : row.status ≡ str (status_text m.status)
  pub roles : IsArrayOf m.roles row.roles
  pub display_name : IsNameOf m.display_name row.display_name
  pub subject_bounded : is_bounded_identifier (column row.subject_id) 128 ≡ true
  pub name_bounded : IsBoundedName m.display_name
  pub valid : IsMember m

-- The members are those of the rows, one for each and in their order.
abbrev pub Pairs : Text → List WorkspaceTeamRow → List WorkspaceTeamMember → Type 0
Pairs o [] [] = Unit
Pairs o (r ∷ rs) (m ∷ ms) = IsMemberOf o r m × Pairs o rs ms
Pairs o _ _ = ⊥

stored_IsNameOf : (v : Value) → is_stored_name v ≡ true → IsNameOf (display_name_of v) v
stored_IsNameOf null h = inl refl
stored_IsNameOf (str []) h = inr refl
stored_IsNameOf (str (c ∷ s)) h = refl
stored_IsNameOf _ h = cc

stored_IsBoundedName : (v : Value) → is_stored_name v ≡ true → IsBoundedName (display_name_of v)
stored_IsBoundedName null h = tt
stored_IsBoundedName (str []) h = tt
stored_IsBoundedName (str (c ∷ s)) h =
    (omega arith, (is_profile_value-IsProfileText 80 (str (c ∷ s)) h).1)
stored_IsBoundedName _ h = cc

bounded-str : (v : Value) → is_bounded_value (as_text v) 128 ≡ true → v ≡ str (column v)
bounded-str (str s) h = refl
bounded-str _ h = cc

bounded_column :
    (v : Value)
    → is_bounded_value (as_text v) 128 ≡ true
    → is_bounded_identifier (column v) 128 ≡ true
bounded_column (str s) h = h
bounded_column _ h = cc

status_of-status_text :
    (v : Value) (st : MembershipStatus) → status_of (as_text v) ≡ some st → v ≡ str (status_text st)
unfolding status_of status_text
status_of-status_text (str s) active h = ap str ((text_eq_iff s (text "active")).0 (ground arith))
status_of-status_text (str s) invited h = ap str ((text_eq_iff s (text "invited")).0 (ground arith))
status_of-status_text (str s) suspended h =
    ap str ((text_eq_iff s (text "suspended")).0 (ground arith))
status_of-status_text _ st h = cc

pub to_team_member-IsMemberOf :
    (o : Text) (row : WorkspaceTeamRow) (m : WorkspaceTeamMember)
    → to_team_member o row ≡ ok m
    → IsMemberOf o row m
unfolding to_team_member has_team_columns
to_team_member-IsMemberOf o row m h = elim (Option-cases (status_of (as_text row.status))) [
  | inl unknown ↦ ground arith
  | inr (st, named) ↦
      let r = is_authority_tokens-AreTokens row.roles 1 32 128 (ground arith) in
      let array = is_authority_tokens-IsArrayOf row.roles 1 32 128 (ground arith) in
      let name = stored_name row.display_name (ground arith) in
      let kept = stored_IsNameOf row.display_name (ground arith) in
      let id = bounded-str row.membership_id (ground arith) in
      let same : member_of row (some st) ≡ ok m = ground arith in
      let id_same : column row.membership_id ≡ m.membership_id = ground arith in
      let name_same : display_name_of row.display_name ≡ m.display_name = ground arith in
      let roles_same : texts (elements row.roles) ≡ m.roles = ground arith in
      let status_same : st ≡ m.status = ground arith in
      record {
        membership_id = id ∙ ap str id_same;
        subject_id = bounded-str row.subject_id (ground arith);
        organization_id =
            bounded-str row.organization_id (ground arith)
            ∙ ap str ((text_eq_iff (column row.organization_id) o).0 (ground arith));
        status =
            status_of-status_text row.status st named ∙ ap (λ x. str (status_text x)) status_same;
        roles = subst (λ x. IsArrayOf x row.roles) roles_same array;
        display_name = subst (λ x. IsNameOf x row.display_name) name_same kept;
        subject_bounded = bounded_column row.subject_id (ground arith);
        name_bounded =
            subst IsBoundedName name_same (stored_IsBoundedName row.display_name (ground arith));
        valid = record {
          membership_id = ground arith;
          display_name = ground (arith, name);
          roles = subst (AreTokens 1 32 128) roles_same r;
        };
      }
]
