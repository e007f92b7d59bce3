-- ===== src/Workspace/TeamStatus/Managed.antt =====
-- workspace-team-member-status.controller.ts over the Postgres repository, end to end.
use vsn_voice_ai.Prelude.{◌≡◌, refl, ap, subst, ◌∙◌, true, Option, none, some, List, [], ◌∷◌, arith}
use vsn_voice_ai.Js.Text.{Text, text}
use vsn_voice_ai.Js.Value.{Value}
use vsn_voice_ai.Js.Result.{Result, ok, err}
use vsn_voice_ai.Js.Exec.{Exec}
use vsn_voice_ai.Js.Exec.Inversion.{lift-inv, catching-inv}
use vsn_voice_ai.Identity.Principal.{AuthenticatedPrincipal, is_bounded_identifier}
use vsn_voice_ai.Identity.Trusted.{
  TrustedPrincipalResolution, authenticated, unauthenticated, unavailable,
}
use vsn_voice_ai.Organizations.Membership.{OrganizationMembership}
use vsn_voice_ai.Organizations.Authorization.{
  AuthorizationDenial, MayAccess, authorize_tenant_access, authorize_tenant_access-MayAccess,
}
use vsn_voice_ai.Workspace.TeamStatus.{
  ManagedStatus, StatusResponse, StatusRow, TeamFailure, bad_request, forbidden, invalid_argument,
  require_identifier, change_member_status, is_requested_row, postgres_repository, parse_status,
  status_error, require_principal, require_membership, put_status,
}
use vsn_voice_ai.Workspace.TeamStatus.Changed.{
  IsChanged, response, update_values, change_member_status_iff, require_identifier_iff,
  postgres_repository-inv,
}

pub require_principal-authenticated :
    (identity : TrustedPrincipalResolution) (p : AuthenticatedPrincipal)
    → require_principal identity ≡ ok p
    → identity ≡ authenticated p
require_principal-authenticated (authenticated q) p h = ground arith
require_principal-authenticated unauthenticated p h = ground arith
require_principal-authenticated unavailable p h = ground arith

pub require_membership-found :
    {E : Type 0} (r : Result E (Option OrganizationMembership)) (m : OrganizationMembership)
    → require_membership r ≡ ok m
    → r ≡ ok (some m)
require_membership-found (err e) m h = ground arith
require_membership-found (ok none) m h = ground arith
require_membership-found (ok (some x)) m h = ground arith

module _ {D E : Type 0} (update : List Value → Exec D TeamFailure (List StatusRow))
    (memberships : AuthenticatedPrincipal → Text → Result E (Option OrganizationMembership))
    (identity : TrustedPrincipalResolution) (o m : Text) (body : Value) where
  -- A request that changed a status: its principal manages the team, and the database made the update.
  pub record IsManaged (r : StatusResponse) (d d' : D) : Type 0 where
    pub principal : AuthenticatedPrincipal
    pub membership : OrganizationMembership
    pub status : ManagedStatus
    pub row : StatusRow
    pub known : identity ≡ authenticated principal
    pub member : memberships principal o ≡ ok (some membership)
    pub access : MayAccess principal membership o (text "team.manage")
    pub asked : parse_status body ≡ ok status
    pub updated : update (update_values principal.subject_id o m status) d ≡ (ok (row ∷ []), d')
    pub requested : is_requested_row o m status row ≡ true
    pub answered : r ≡ response o m status

  managed :
      (d d' : D) (r : StatusResponse) (s : ManagedStatus) (p : AuthenticatedPrincipal)
      (q : OrganizationMembership)
      → parse_status body ≡ ok s
      → identity ≡ authenticated p
      → memberships p o ≡ ok (some q)
      → IsChanged (postgres_repository update) (some p) (some q) o m s d d'
      → r ≡ response o m s
      → IsManaged r d d'
  managed d d' r s p q es known found changed er =
      let (may, same) =
        authorize_tenant_access-MayAccess p q o (text "team.manage") changed.context
          changed.authorized in
      let (row, updated, requested) =
        postgres_repository-inv update changed.context.subject_id o m s d d' (response o m s)
          changed.updated in
      record {
        principal = p;
        membership = q;
        status = s;
        row = row;
        known = known;
        member = found;
        access = may;
        asked = es;
        updated =
            subst (λ a. update (update_values a o m s) d ≡ (ok (row ∷ []), d'))
              (ap (λ c. c.subject_id) same) updated;
        requested = requested;
        answered = er;
      }

  -- A request that succeeds over the Postgres repository comes from an authenticated principal with
  -- access by `team.manage` to the organization of the path. The database was asked once, for the
  -- update of the membership of the path to the status of the body in the principal's name, and it
  -- returned that one row. The response is the organization, the membership and the status.
  pub put_status-IsManaged :
      (d d' : D) (r : StatusResponse)
      → put_status (postgres_repository update) memberships identity o m body d ≡ (ok r, d')
      → IsManaged r d d'
  unfolding put_status
  put_status-IsManaged d d' r h =
      let (o', eo, h₁) = lift-inv (require_identifier bad_request o) _ h in
      let (m', em, h₂) = lift-inv (require_identifier bad_request m) _ h₁ in
      let (s, es, h₃) = lift-inv (parse_status body) _ h₂ in
      let (p, ep, h₄) = lift-inv (require_principal identity) _ h₃ in
      let (q, eq, h₅) = lift-inv (require_membership (memberships p o')) _ h₄ in
      let changed =
        (change_member_status_iff (postgres_repository update) (some p) (some q) o' m' s d d' r).0 (
          catching-inv status_error
            (change_member_status (postgres_repository update) (some p) (some q) o' m' s) d h₅) in
      let so = ((require_identifier_iff bad_request o o').0 eo).1 in
      let sm = ((require_identifier_iff bad_request m m').0 em).1 in
      managed d d' r s p q es (require_principal-authenticated identity p ep)
        (require_membership-found (memberships p o) q
          (subst (λ x. require_membership (memberships p x) ≡ ok q) so eq))
        (subst (λ x. IsChanged (postgres_repository update) (some p) (some q) x m s d d') so
          (subst (λ y. IsChanged (postgres_repository update) (some p) (some q) o' y s d d') sm
            (changed.0)))
        (changed.1 ∙ ap (λ x. response x m' s) so ∙ ap (λ y. response o y s) sm)

  -- A well-formed request of an authenticated member whom `authorizeTenantAccess` refuses `team.manage`
  -- is answered as forbidden, and the database is not asked.
  pub put_status_forbidden :
      (p : AuthenticatedPrincipal) (q : OrganizationMembership) (s : ManagedStatus)
      (reason : AuthorizationDenial) (d : D)
      → is_bounded_identifier o 128 ≡ true
      → is_bounded_identifier m 128 ≡ true
      → parse_status body ≡ ok s
      → identity ≡ authenticated p
      → memberships p o ≡ ok (some q)
      → authorize_tenant_access (some p) (some q) o (text "team.manage") ≡ err reason
      → put_status (postgres_repository update) memberships identity o m body d ≡ (err forbidden, d)
  unfolding put_status change_member_status status_error
  put_status_forbidden p q s reason d valid_o valid_m es known found refused =
      let eo = (require_identifier_iff bad_request o o).1 (valid_o, refl) in
      let em = (require_identifier_iff bad_request m m).1 (valid_m, refl) in
      let to = (require_identifier_iff invalid_argument o o).1 (valid_o, refl) in
      let tm = (require_identifier_iff invalid_argument m m).1 (valid_m, refl) in
      simp (eo, em, es, known, found, to, tm, refused)
