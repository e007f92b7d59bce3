-- ===== src/Workspace/Settings/Refused.antt =====
-- The handlers of the workspace's profiles and preferences: what a refused request is answered.
use vsn_voice_ai.Prelude.{◌≡◌, refl, sym, subst, true, inl, inr, Option, none, some, arith}
use vsn_voice_ai.Js.Text.{Text}
use vsn_voice_ai.Js.Result.{Result, ok, err, Result-cases}
use vsn_voice_ai.Js.Exec.{Exec}
use vsn_voice_ai.Js.Exec.Inversion.{lift-err, catching-err}
use vsn_voice_ai.Identity.Principal.{AuthenticatedPrincipal, is_bounded_identifier}
use vsn_voice_ai.Identity.Trusted.{
  TrustedPrincipalResolution, authenticated, unauthenticated, unavailable,
}
use vsn_voice_ai.Organizations.Membership.{OrganizationMembership}
use vsn_voice_ai.Organizations.Authorization.{authorize_tenant_access}
use vsn_voice_ai.Workspace.TeamStatus.{
  TeamFailure, data_integrity, persistence_unavailable, denied, invalid_argument, HttpError,
  bad_request, unauthorized, forbidden, service_unavailable, unmapped, require_identifier,
  require_principal, require_membership,
}
use vsn_voice_ai.Workspace.TeamStatus.Changed.{require_identifier_iff}
use vsn_voice_ai.Workspace.Settings.{domain_error, authorize_scope, handle}

-- An error with a status of its own.
abbrev pub IsMapped : HttpError → Type 0
IsMapped (unmapped f) = ⊥
IsMapped _ = Unit

-- An error that `rethrowDomainError` knows.
abbrev pub IsExpected : TeamFailure → Type 0
IsExpected (denied reason) = Unit
IsExpected data_integrity = Unit
IsExpected persistence_unavailable = Unit
IsExpected _ = ⊥

domain_error-IsMapped : (f : TeamFailure) → IsExpected f → IsMapped (domain_error f)
unfolding domain_error
domain_error-IsMapped (denied reason) h = tt
domain_error-IsMapped data_integrity h = tt
domain_error-IsMapped persistence_unavailable h = tt
domain_error-IsMapped _ h = elim h [ ]

require_identifier-IsMapped :
    (o : Text) (e : HttpError) → require_identifier bad_request o ≡ err e → IsMapped e
unfolding require_identifier
require_identifier-IsMapped o e h =
    let same : bad_request ≡ e = ground arith in subst IsMapped same tt

require_principal-IsMapped :
    (i : TrustedPrincipalResolution) (e : HttpError) → require_principal i ≡ err e → IsMapped e
require_principal-IsMapped unauthenticated e h =
    let same : unauthorized ≡ e = ground arith in subst IsMapped same tt
require_principal-IsMapped unavailable e h =
    let same : service_unavailable ≡ e = ground arith in subst IsMapped same tt
require_principal-IsMapped (authenticated p) e h = ground arith

require_membership-IsMapped :
    {E : Type 0} (r : Result E (Option OrganizationMembership)) (e : HttpError)
    → require_membership r ≡ err e
    → IsMapped e
require_membership-IsMapped (err x) e h =
    let same : service_unavailable ≡ e = ground arith in subst IsMapped same tt
require_membership-IsMapped (ok none) e h =
    let same : forbidden ≡ e = ground arith in subst IsMapped same tt
require_membership-IsMapped (ok (some m)) e h = ground arith

-- In an organization with a valid identifier, authorization fails only as a denial.
pub authorize_scope-IsExpected :
    (permission : Text) (p : AuthenticatedPrincipal) (m : OrganizationMembership) (o : Text)
    (f : TeamFailure)
    → is_bounded_identifier o 128 ≡ true
    → authorize_scope permission (some p) (some m) o ≡ err f
    → IsExpected f
unfolding authorize_scope
authorize_scope-IsExpected permission p m o f bounded h =
    let named = (require_identifier_iff invalid_argument o o).1 (bounded, refl) in
    elim (Result-cases (authorize_tenant_access (some p) (some m) o permission)) [
      | inl (c, granted) ↦ ground (arith, named)
      | inr (reason, refused) ↦
          let same : denied reason ≡ f = ground (arith, named) in subst IsExpected same tt
    ]

module _ {D E B R : Type 0}
    (memberships : AuthenticatedPrincipal → Text → Result E (Option OrganizationMembership))
    (identity : TrustedPrincipalResolution) (o : Text) (parsed : Result HttpError B)
    (action : AuthenticatedPrincipal
      → OrganizationMembership
      → Text
      → B
      → Exec D TeamFailure R) where
  -- A handler whose action throws only expected errors answers with a status of its own.
  pub handle-IsMapped :
      ((e : HttpError) → parsed ≡ err e → IsMapped e)
      → ((p : AuthenticatedPrincipal) (m : OrganizationMembership) (b : B) (d d' : D)
            (f : TeamFailure)
          → is_bounded_identifier o 128 ≡ true
          → action p m o b d ≡ (err f, d')
          → IsExpected f)
      → (d d' : D) (e : HttpError) → handle memberships identity o parsed action d ≡ (err e, d')
      → IsMapped e
  handle-IsMapped parses acts d d' e h = elim (lift-err (require_identifier bad_request o) _ d h) [
    | inl bad ↦ require_identifier-IsMapped o e bad
    | inr (o', named, h₁) ↦ elim (lift-err parsed _ d h₁) [
      | inl bad ↦ parses e bad
      | inr (b, read, h₂) ↦ elim (lift-err (require_principal identity) _ d h₂) [
        | inl bad ↦ require_principal-IsMapped identity e bad
        | inr (p, known, h₃) ↦ elim (lift-err (require_membership (memberships p o')) _ d h₃) [
          | inl bad ↦ require_membership-IsMapped (memberships p o') e bad
          | inr (m, member, h₄) ↦
              let (valid, same) = (require_identifier_iff bad_request o o').0 named in
              let (f, thrown, mapped) = catching-err domain_error (action p m o' b) d h₄ in
              let expected =
                acts p m b d d' f valid (subst (λ x. action p m x b d ≡ (err f, d')) same thrown) in
              subst IsMapped (sym mapped) (domain_error-IsMapped f expected)
        ]
      ]
    ]
  ]
