-- ===== src/Workspace/Settings/Handled.antt =====
-- The handlers of the workspace's profiles and preferences: what a successful one has done.
use vsn_voice_ai.Prelude.{◌≡◌, refl, subst, true, Option, some}
use vsn_voice_ai.Js.Text.{Text}
use vsn_voice_ai.Js.Result.{Result, ok}
use vsn_voice_ai.Js.Exec.{Exec}
use vsn_voice_ai.Js.Exec.Inversion.{lift-inv, catching-inv}
use vsn_voice_ai.Identity.Principal.{AuthenticatedPrincipal, is_bounded_identifier}
use vsn_voice_ai.Identity.Trusted.{TrustedPrincipalResolution, authenticated}
use vsn_voice_ai.Organizations.Membership.{OrganizationMembership}
use vsn_voice_ai.Workspace.TeamStatus.{
  TeamFailure, HttpError, bad_request, require_identifier, require_principal, require_membership,
}
use vsn_voice_ai.Workspace.TeamStatus.Changed.{require_identifier_iff}
use vsn_voice_ai.Workspace.TeamStatus.Managed.{
  require_principal-authenticated, require_membership-found,
}
use vsn_voice_ai.Workspace.Settings.{domain_error, handle}

module _ {D E B R : Type 0}
    (memberships : AuthenticatedPrincipal → Text → Result E (Option OrganizationMembership))
    (identity : TrustedPrincipalResolution) (o : Text) (parsed : Result HttpError B)
    (action : AuthenticatedPrincipal
      → OrganizationMembership
      → Text
      → B
      → Exec D TeamFailure R) where
  -- The context of the request, and that the action was done in it.
  pub record IsHandled (r : R) (d d' : D) : Type 0 where
    pub principal : AuthenticatedPrincipal
    pub membership : OrganizationMembership
    pub body : B
    pub bounded : is_bounded_identifier o 128 ≡ true
    pub known : identity ≡ authenticated principal
    pub member : memberships principal o ≡ ok (some membership)
    pub read : parsed ≡ ok body
    pub done : action principal membership o body d ≡ (ok r, d')

  pub handle-IsHandled :
      (d d' : D) (r : R)
      → handle memberships identity o parsed action d ≡ (ok r, d')
      → IsHandled r d d'
  handle-IsHandled d d' r h =
      let (o', eo, h₁) = lift-inv (require_identifier bad_request o) _ h in
      let (b, eb, h₂) = lift-inv parsed _ h₁ in
      let (p, ep, h₃) = lift-inv (require_principal identity) _ h₂ in
      let (m, em, h₄) = lift-inv (require_membership (memberships p o')) _ h₃ in
      let (valid, same) = (require_identifier_iff bad_request o o').0 eo in
      record {
        principal = p;
        membership = m;
        body = b;
        bounded = valid;
        known = require_principal-authenticated identity p ep;
        member =
            require_membership-found (memberships p o) m
              (subst (λ x. require_membership (memberships p x) ≡ ok m) same em);
        read = eb;
        done =
            subst (λ x. action p m x b d ≡ (ok r, d')) same
              (catching-inv domain_error (action p m o' b) d h₄);
      }

  pub IsHandled-handle :
      (d d' : D) (r : R)
      → IsHandled r d d'
      → handle memberships identity o parsed action d ≡ (ok r, d')
  IsHandled-handle d d' r h =
      let eo = (require_identifier_iff bad_request o o).1 (h.bounded, refl) in
      simp (eo, h.read, h.known, h.member, h.done)
