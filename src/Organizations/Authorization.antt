-- ===== src/Organizations/Authorization.antt =====
-- tenant-authorization.ts: authorizeTenantAccess.
use vsn_voice_ai.Prelude.{◌≡◌, refl, ◌↔◌, true, Option, none, some, List, arith, if◌then◌else◌}
use vsn_voice_ai.Js.Text.{Text, text_eq, text_eq_iff, includes}
use vsn_voice_ai.Js.Result.{Result, ok, err, guard, ◌>>=◌, ◌>>◌}
use vsn_voice_ai.Identity.Principal.{AuthenticatedPrincipal, is_valid_principal}
use vsn_voice_ai.Organizations.Membership.{OrganizationMembership, is_active}

pub record AuthorizationContext : Type 0 where
  pub subject_id : Text
  pub organization_id : Text
  pub membership_id : Text
  pub roles : List Text
  pub permissions : List Text
  pub session_id : Option Text

-- The reasons of `AuthorizationDeniedError`.
pub data AuthorizationDenial : Type 0 where
  principal_required membership_required membership_not_active : AuthorizationDenial
  subject_mismatch other_organization permission_missing : AuthorizationDenial

assert_principal : Option AuthenticatedPrincipal → Result AuthorizationDenial AuthenticatedPrincipal
assert_principal none = err principal_required
assert_principal (some p) = if is_valid_principal p then ok p else err principal_required

assert_membership :
    Option OrganizationMembership → Result AuthorizationDenial OrganizationMembership
assert_membership none = err membership_required
assert_membership (some m) = ok m

abbrev pub context_of : AuthenticatedPrincipal → OrganizationMembership → AuthorizationContext
context_of p m = record {
  subject_id = p.subject_id;
  organization_id = m.organization_id;
  membership_id = m.membership_id;
  roles = m.roles;
  permissions = m.permissions;
  session_id = p.session_id;
}

unfoldable pub authorize_tenant_access :
    Option AuthenticatedPrincipal
    → Option OrganizationMembership
    → Text
    → Text
    → Result AuthorizationDenial AuthorizationContext
unfolding assert_principal assert_membership
authorize_tenant_access principal membership organization_id required_permission = do
  p ← assert_principal principal
  m ← assert_membership membership
  guard (is_active m.status) membership_not_active
  guard (text_eq m.subject_id p.subject_id) subject_mismatch
  guard (text_eq m.organization_id organization_id) other_organization
  guard (includes m.permissions required_permission) permission_missing
  ok (context_of p m)

-- What access takes.
pub record MayAccess (p : AuthenticatedPrincipal) (m : OrganizationMembership)
    (organization_id required_permission : Text) : Type 0 where
  pub valid : is_valid_principal p ≡ true
  pub active : is_active m.status ≡ true
  pub subject : m.subject_id ≡ p.subject_id
  pub organization : m.organization_id ≡ organization_id
  pub permitted : includes m.permissions required_permission ≡ true

pub authorize_tenant_access-granted :
    (p : AuthenticatedPrincipal) (m : OrganizationMembership) (o r : Text)
    → MayAccess p m o r
    → authorize_tenant_access (some p) (some m) o r ≡ ok (context_of p m)
unfolding authorize_tenant_access
authorize_tenant_access-granted p m o r h =
    ground (arith, text_eq_iff m.subject_id p.subject_id, text_eq_iff m.organization_id o)

pub authorize_tenant_access-MayAccess :
    (p : AuthenticatedPrincipal) (m : OrganizationMembership) (o r : Text)
    (c : AuthorizationContext)
    → authorize_tenant_access (some p) (some m) o r ≡ ok c
    → MayAccess p m o r × (c ≡ context_of p m)
unfolding authorize_tenant_access
authorize_tenant_access-MayAccess p m o r c h = (
  ground (arith, text_eq_iff m.subject_id p.subject_id, text_eq_iff m.organization_id o),
  ground arith,
)

authorize_tenant_access-inv :
    (principal : Option AuthenticatedPrincipal) (membership : Option OrganizationMembership)
    (o r : Text) (c : AuthorizationContext)
    → authorize_tenant_access principal membership o r ≡ ok c
    → (p : AuthenticatedPrincipal) × (m : OrganizationMembership) × (principal ≡ some p)
      × (membership ≡ some m)
      × MayAccess p m o r
      × (c ≡ context_of p m)
unfolding authorize_tenant_access
authorize_tenant_access-inv none membership o r c h = cc
authorize_tenant_access-inv (some p) none o r c h = ground arith
authorize_tenant_access-inv (some p) (some m) o r c h =
    let (may, e) = authorize_tenant_access-MayAccess p m o r c h in (p, m, refl, refl, may, e)

-- Access is granted, with the context of the principal and the membership, exactly when both are
-- given, the principal is valid, and the membership is active, the principal's own, of the
-- resource's organization, and holds the permission.
pub authorize_tenant_access_iff :
    (principal : Option AuthenticatedPrincipal) (membership : Option OrganizationMembership)
    (organization_id required_permission : Text) (c : AuthorizationContext)
    → (authorize_tenant_access principal membership organization_id required_permission ≡ ok c) ↔ (
        (p : AuthenticatedPrincipal) × (m : OrganizationMembership) × (principal ≡ some p)
        × (membership ≡ some m)
        × MayAccess p m organization_id required_permission
        × (c ≡ context_of p m))
authorize_tenant_access_iff principal membership o r c = (
  authorize_tenant_access-inv principal membership o r c,
  λ h.
      let (p, m, ep, em, may, ec) = h in
      rw (ep, em, ec) (authorize_tenant_access-granted p m o r may),
)
