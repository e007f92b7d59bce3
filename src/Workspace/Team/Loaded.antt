-- ===== src/Workspace/Team/Loaded.antt =====
-- workspace-team-repository.ts and workspace-team.controller.ts over the Postgres repository.
use vsn_voice_ai.Prelude.{
  ◌≡◌, refl, sym, ap, subst, ◌∙◌, true, false, not, Option, none, some, List, [], ◌∷◌, All, all,
  arith, length, ltb,
}
use vsn_voice_ai.Js.Text.{Text, text, text_eq, text_eq_iff, trim, is_blank}
use vsn_voice_ai.Js.Trimmed.{trim-trim}
use vsn_voice_ai.Js.Value.{Value}
use vsn_voice_ai.Js.Result.{Result, ok, err, map_err}
use vsn_voice_ai.Js.Exec.{Exec, proceed, pure, guard, ◌>>◌}
use vsn_voice_ai.Js.Exec.Inversion.{lift-inv, guard-inv, catching-inv}
use vsn_voice_ai.Identity.Principal.{AuthenticatedPrincipal}
use vsn_voice_ai.Identity.Trusted.{TrustedPrincipalResolution, authenticated}
use vsn_voice_ai.Organizations.Membership.{OrganizationMembership}
use vsn_voice_ai.Organizations.Authorization.{
  MayAccess, authorize_tenant_access, authorize_tenant_access-granted,
  authorize_tenant_access-MayAccess,
}
use vsn_voice_ai.Workspace.TeamStatus.{
  TeamFailure, invalid_argument, data_integrity, denied, bad_request, require_principal,
}
use vsn_voice_ai.Workspace.TeamStatus.Changed.{map_err-inv}
use vsn_voice_ai.Workspace.TeamStatus.Managed.{require_principal-authenticated}
use vsn_voice_ai.Workspace.Settings.{domain_error}
use vsn_voice_ai.Workspace.Team.{
  WorkspaceTeamMember, WorkspaceTeamSnapshot, WorkspaceTeamRow, is_member_name, load_workspace_team,
  postgres_team, found_membership, get_team,
}
use vsn_voice_ai.Workspace.Team.Rows.{IsMember}
use vsn_voice_ai.Workspace.Team.Listed.{IsTeamOf, postgres_team-IsTeamOf}

pub found_membership-found :
    (r : Result TeamFailure (Option OrganizationMembership)) (m : OrganizationMembership)
    → found_membership r ≡ ok m
    → r ≡ ok (some m)
found_membership-found (err e) m h = ground arith
found_membership-found (ok none) m h = ground arith
found_membership-found (ok (some x)) m h = ground arith

all-is_member_name :
    (ms : List WorkspaceTeamMember)
    → All IsMember ms
    → all (λ m. is_member_name m.display_name) ms ≡ true
all-is_member_name [] h = refl
all-is_member_name (m ∷ ms) (p, h) = ground (arith, p.display_name, all-is_member_name ms h)

-- The checks of `loadWorkspaceTeam` on a snapshot.
abbrev checked :
    {D : Type 0} → Text → WorkspaceTeamSnapshot → Exec D TeamFailure WorkspaceTeamSnapshot
checked o snapshot = do
  guard (text_eq snapshot.organization_id o) data_integrity
  guard (not (ltb 200 (length snapshot.members))) data_integrity
  guard (all (λ m. is_member_name m.display_name) snapshot.members) data_integrity
  pure snapshot

module _ {D : Type 0} (lookup : List Value → Exec D TeamFailure (List WorkspaceTeamRow)) where
  checked-postgres_team :
      (o : Text) (d d' : D) (snapshot : WorkspaceTeamSnapshot)
      → IsTeamOf lookup o d d' snapshot
      → checked o snapshot d' ≡ (ok snapshot, d')
  checked-postgres_team o d d' snapshot t =
      let same = (text_eq_iff snapshot.organization_id o).1 t.organization in
      let few : ltb 200 (length snapshot.members) ≡ false = ground (arith, t.few) in
      let named = all-is_member_name snapshot.members t.are.members in rw (same, few, named) refl

  proceed-checked :
      (o : Text) (d : D)
      → proceed {E = TeamFailure} (checked (trim o)) (postgres_team lookup (trim o) d)
        ≡ postgres_team lookup (trim o) d
  proceed-checked o d = go (postgres_team lookup (trim o) d) refl
    where
      go :
          (x : Result TeamFailure WorkspaceTeamSnapshot × D)
          → postgres_team lookup (trim o) d ≡ x
          → proceed {E = TeamFailure} (checked (trim o)) x ≡ x
      go (err e, d') h = refl
      go (ok snapshot, d') h = checked-postgres_team (trim o) d d' snapshot (
          subst (λ x. IsTeamOf lookup x d d' snapshot) (trim-trim o)
            (postgres_team-IsTeamOf lookup (trim o) d d' snapshot h))

  -- Over the Postgres repository the checks of `loadWorkspaceTeam` on its snapshot never fail: for a
  -- member with access by `team.read` it is the repository's listing of the organization.
  pub load_workspace_team-postgres_team :
      (p : AuthenticatedPrincipal) (m : OrganizationMembership) (o : Text) (d : D)
      → is_blank o ≡ false
      → MayAccess p m (trim o) (text "team.read")
      → load_workspace_team (postgres_team lookup) (some p) (some m) o d
        ≡ postgres_team lookup (trim o) d
  unfolding load_workspace_team
  load_workspace_team-postgres_team p m o d filled may =
      let granted = authorize_tenant_access-granted p m (trim o) (text "team.read") may in
      rw (filled, granted) (proceed-checked o d)

  -- A request that lists a team: its principal may read it, and the database answered it.
  pub record IsListing
      (memberships : AuthenticatedPrincipal
        → Text
        → Result TeamFailure (Option OrganizationMembership))
      (identity : TrustedPrincipalResolution) (o : Text) (snapshot : WorkspaceTeamSnapshot)
      (d d' : D) : Type 0 where
    pub principal : AuthenticatedPrincipal
    pub membership : OrganizationMembership
    pub known : identity ≡ authenticated principal
    pub member : memberships principal o ≡ ok (some membership)
    pub access : MayAccess principal membership o (text "team.read")
    pub team : IsTeamOf lookup o d d' snapshot

  load_workspace_team-inv :
      (p : AuthenticatedPrincipal) (m : OrganizationMembership) (o : Text) (d d' : D)
      (snapshot : WorkspaceTeamSnapshot)
      → load_workspace_team (postgres_team lookup) (some p) (some m) o d ≡ (ok snapshot, d')
      → MayAccess p m (trim o) (text "team.read")
        × (postgres_team lookup (trim o) d ≡ (ok snapshot, d'))
  unfolding load_workspace_team
  load_workspace_team-inv p m o d d' snapshot h =
      let (filled, h₁) = guard-inv (not (is_blank o)) invalid_argument _ d h in
      let (c, granted, h₂) =
        lift-inv
          (map_err denied (authorize_tenant_access (some p) (some m) (trim o) (text "team.read"))) _
          h₁ in
      let may =
        (authorize_tenant_access-MayAccess p m (trim o) (text "team.read") c
          (map_err-inv denied _ granted)).0 in
      (may, sym (proceed-checked o d) ∙ h₂)

  -- A request that is answered with a team over the Postgres repository comes from an authenticated
  -- principal with access by `team.read` to the organization of the trimmed path. The members are
  -- those of the database's first 200 rows for it, one for each row and in their order: a row is of the
  -- organization and holds its member's identifier, status, roles and name, null or empty for none.
  -- Identifier, name and roles are bounded, no membership and no subject occurs twice, and `has_more`
  -- tells whether there were more rows.
  pub get_team-IsListing :
      (memberships : AuthenticatedPrincipal
        → Text
        → Result TeamFailure (Option OrganizationMembership))
      (identity : TrustedPrincipalResolution) (o : Text) (d d' : D)
      (snapshot : WorkspaceTeamSnapshot)
      → get_team (postgres_team lookup) memberships identity o d ≡ (ok snapshot, d')
      → IsListing memberships identity (trim o) snapshot d d'
  unfolding get_team
  get_team-IsListing memberships identity o d d' snapshot h =
      let (filled, h₁) = guard-inv (not (is_blank o)) bad_request _ d h in
      let (p, known, h₂) = lift-inv (require_principal identity) _ h₁ in
      let (m, member, h₃) = lift-inv (found_membership (memberships p (trim o))) _ h₂ in
      let (may, listed) = load_workspace_team-inv p m (trim o) d d' snapshot (
        catching-inv domain_error
          (load_workspace_team (postgres_team lookup) (some p) (some m) (trim o)) d h₃) in
      let twice = trim-trim o in
      record {
        principal = p;
        membership = m;
        known = require_principal-authenticated identity p known;
        member = found_membership-found (memberships p (trim o)) m member;
        access = subst (λ x. MayAccess p m x (text "team.read")) twice may;
        team =
            subst (λ x. IsTeamOf lookup x d d' snapshot) (ap trim twice ∙ twice)
              (postgres_team-IsTeamOf lookup (trim (trim o)) d d' snapshot listed);
      }
