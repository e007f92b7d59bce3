-- ===== src/Workspace/Entry/Entered.antt =====
-- workspace.controller.ts and workspace-directory.controller.ts: who enters which workspace.
use vsn_voice_ai.Prelude.{
  ◌≤◌, ◌≡◌, refl, ap, ◌∙◌, ◌↔◌, false, Option, some, List, map, arith, inl, inr, length, ltb,
}
use vsn_voice_ai.Js.Text.{Text, text, trim, is_blank}
use vsn_voice_ai.Js.Value.{Value}
use vsn_voice_ai.Js.Result.{Result, ok, Result-cases}
use vsn_voice_ai.Js.Exec.{Exec, catching, lift, ◌>>=◌}
use vsn_voice_ai.Js.Exec.Inversion.{lift-inv, bind-inv, catching-inv}
use vsn_voice_ai.Identity.Principal.{AuthenticatedPrincipal}
use vsn_voice_ai.Identity.Trusted.{TrustedPrincipalResolution, authenticated}
use vsn_voice_ai.Organizations.Membership.{OrganizationMembership}
use vsn_voice_ai.Organizations.Authorization.{
  MayAccess, context_of, authorize_tenant_access, authorize_tenant_access-granted,
  authorize_tenant_access-MayAccess,
}
use vsn_voice_ai.Organizations.Postgres.{
  DirectoryRow, DirectoryFailure, OrganizationMembershipDirectorySnapshot, list_for_principal,
}
use vsn_voice_ai.Organizations.Postgres.Directory.{AreEntriesOf, list_for_principal-AreEntriesOf}
use vsn_voice_ai.Workspace.TeamStatus.{TeamFailure, require_principal}
use vsn_voice_ai.Workspace.TeamStatus.Managed.{require_principal-authenticated}
use vsn_voice_ai.Workspace.Team.{found_membership}
use vsn_voice_ai.Workspace.Team.Loaded.{found_membership-found}
use vsn_voice_ai.Workspace.Entry.{
  WorkspaceAuthorizationSummary, to_summary, create_workspace_bootstrap, get_bootstrap,
  WorkspaceDirectoryResponse, failed, to_entry, build_workspace_directory_response, directory_error,
  list_workspaces,
}

-- What a bootstrap takes, and tells.
pub record IsBootstrap
    (memberships : AuthenticatedPrincipal
      → Text
      → Result TeamFailure (Option OrganizationMembership))
    (identity : TrustedPrincipalResolution) (o : Text) (s : WorkspaceAuthorizationSummary)
    : Type 0 where
  pub principal : AuthenticatedPrincipal
  pub membership : OrganizationMembership
  pub filled : is_blank o ≡ false
  pub known : identity ≡ authenticated principal
  pub member : memberships principal o ≡ ok (some membership)
  pub access : MayAccess principal membership o (text "conversation.read")
  pub answered : s ≡ to_summary (context_of principal membership)

module _
    (memberships : AuthenticatedPrincipal
      → Text
      → Result TeamFailure (Option OrganizationMembership))
    (identity : TrustedPrincipalResolution) (o : Text) (s : WorkspaceAuthorizationSummary) where
  get_bootstrap-inv :
      get_bootstrap memberships identity o ≡ ok s → IsBootstrap memberships identity o s
  unfolding get_bootstrap create_workspace_bootstrap
  get_bootstrap-inv h = elim (Result-cases (require_principal identity)) [
    | inr (e, bad) ↦ ground arith
    | inl (p, known) ↦ elim (Result-cases (found_membership (memberships p o))) [
      | inr (e, bad) ↦ ground arith
      | inl (m, member) ↦
          elim (Result-cases
            (authorize_tenant_access (some p) (some m) o (text "conversation.read"))) [
              | inr (e, refused) ↦ ground arith
              | inl (c, granted) ↦
                  let (may, context) =
                    authorize_tenant_access-MayAccess p m o (text "conversation.read") c granted in
                  record {
                    principal = p;
                    membership = m;
                    filled = ground arith;
                    known = require_principal-authenticated identity p known;
                    member = found_membership-found (memberships p o) m member;
                    access = may;
                    answered = ground (arith, context);
                  }
            ]
    ]
  ]

  -- A bootstrap is answered exactly when the path's organization is not blank and the request's
  -- principal has access by `conversation.read` to it through the membership that is resolved; the
  -- answer is that membership's identifier, organization, roles and permissions.
  pub get_bootstrap_iff :
      (get_bootstrap memberships identity o ≡ ok s) ↔ IsBootstrap memberships identity o s
  unfolding get_bootstrap create_workspace_bootstrap
  get_bootstrap_iff = (
    get_bootstrap-inv,
    λ b.
        let granted =
          authorize_tenant_access-granted b.principal b.membership o (text "conversation.read")
            b.access in
        rw (b.filled, b.known, b.member, granted, b.answered) refl,
  )

module _ {D : Type 0} (directory : List Value → Exec D DirectoryFailure (List DirectoryRow))
    (identity : TrustedPrincipalResolution) (d d' : D) (r : WorkspaceDirectoryResponse) where
  -- The directory of the request's principal, as the database holds it.
  pub record IsDirectory : Type 0 where
    pub principal : AuthenticatedPrincipal
    pub snapshot : OrganizationMembershipDirectorySnapshot
    pub known : identity ≡ authenticated principal
    pub listed : list_for_principal directory principal d ≡ (ok snapshot, d')
    pub entries : AreEntriesOf (trim principal.subject_id) snapshot.memberships
    pub few : length snapshot.memberships ≤ 100
    pub workspaces : r.workspaces ≡ map to_entry snapshot.memberships
    pub has_more : r.has_more ≡ snapshot.has_more

  -- Over the Postgres directory a list of workspaces is answered exactly when the request has an
  -- authenticated principal whose directory is listed: its bound never fails, and the answer has the
  -- directory's at most 100 entries, which are valid memberships of that principal, none twice.
  pub list_workspaces_iff :
      (list_workspaces (λ p. catching failed (list_for_principal directory p)) identity d
        ≡ (ok r, d'))
      ↔ IsDirectory
  unfolding list_workspaces build_workspace_directory_response
  list_workspaces_iff = (
    λ h.
        let (p, known, h₁) = lift-inv (require_principal identity) _ h in
        let m = catching failed (list_for_principal directory p) in
        let (snapshot, d₁, listed, h₂) =
          bind-inv m (λ s. lift (build_workspace_directory_response s)) d
            (catching-inv directory_error (m >>= λ s. lift (build_workspace_directory_response s)) d
              h₁) in
        let found : list_for_principal directory p d ≡ (ok snapshot, d') =
          catching-inv failed (list_for_principal directory p) d listed
          ∙ ap (λ x. (ok snapshot, x)) (ap (λ x. x.1) h₂) in
        let (rows, _, entries, _, few, _) =
          list_for_principal-AreEntriesOf directory p d d' snapshot found in
        record {
          principal = p;
          snapshot = snapshot;
          known = require_principal-authenticated identity p known;
          listed = found;
          entries = entries;
          few = few;
          workspaces = ground arith;
          has_more = ground arith;
        },
    λ i.
        let short : ltb 100 (length i.snapshot.memberships) ≡ false = ground (arith, i.few) in
        rw (i.known, i.listed, short) (ground (arith, i.workspaces, i.has_more)),
  )
