-- ===== src/DesktopLink/Controller/Tenancy.antt =====
-- desktop-link.controller.ts: requests act for their own subject in the organization of the path.
use vsn_voice_ai.Prelude.{ℕ, ◌≡◌, refl, Option, none, some, arith, inl, inr}
use vsn_voice_ai.Js.Text.{Text, text}
use vsn_voice_ai.Js.Value.{Value, str}
use vsn_voice_ai.Js.Result.{Result, ok, err, Result-cases, ◌>>=◌}
use vsn_voice_ai.Js.Exec
use vsn_voice_ai.Js.Exec.{Exec, lift}
use vsn_voice_ai.Js.Date.{Dates}
use vsn_voice_ai.Identity.Principal.{AuthenticatedPrincipal}
use vsn_voice_ai.Identity.Trusted.{
  TrustedPrincipalResolution, authenticated, unauthenticated, unavailable,
}
use vsn_voice_ai.Organizations.Membership.{OrganizationMembership}
use vsn_voice_ai.Organizations.Authorization.{
  MayAccess, context_of, authorize_tenant_access, authorize_tenant_access-MayAccess,
}
use vsn_voice_ai.DesktopLink.Record.{DesktopLinkRecordStore}
use vsn_voice_ai.DesktopLink.Controller.{
  HttpError, AuthorizedContext, Memberships, authorize_member, resolve_authorized_context,
  require_identifier, handle_list, handle_issue, handle_status, handle_revoke, handle_consume,
}

-- Who a request acts for: a principal with access by `device.link` to the organization.
pub record ActsFor (memberships : Memberships) (identity : TrustedPrincipalResolution)
    (organization_id : Text) (c : AuthorizedContext) : Type 0 where
  pub membership : OrganizationMembership
  pub known : identity ≡ authenticated c.principal
  pub member : memberships c.principal organization_id ≡ ok (some membership)
  pub access : MayAccess c.principal membership organization_id (text "device.link")
  pub context : c.authorization ≡ context_of c.principal membership

authorize_member-ActsFor :
    (memberships : Memberships) (p : AuthenticatedPrincipal) (o : Text)
    (m : Option OrganizationMembership) (c : AuthorizedContext)
    → memberships p o ≡ ok m
    → authorize_member p o m ≡ ok c
    → ActsFor memberships (authenticated p) o c
unfolding authorize_member
authorize_member-ActsFor memberships p o none c found h = cc
authorize_member-ActsFor memberships p o (some m) c found h =
    elim (Result-cases (authorize_tenant_access (some p) (some m) o (text "device.link"))) [
      | inr (e, refused) ↦ ground arith
      | inl (a, granted) ↦
          let (may, same) =
            authorize_tenant_access-MayAccess p m o (text "device.link") a granted in
          let e : c ≡ record { principal = p; authorization = a } = ground arith in
          rw e
            (record { membership = m; known = refl; member = found; access = may; context = same })
    ]

pub resolve_authorized_context-ActsFor :
    (memberships : Memberships) (identity : TrustedPrincipalResolution) (o : Text)
    (c : AuthorizedContext)
    → resolve_authorized_context memberships identity o ≡ ok c
    → ActsFor memberships identity o c
unfolding resolve_authorized_context
resolve_authorized_context-ActsFor memberships unauthenticated o c h = cc
resolve_authorized_context-ActsFor memberships unavailable o c h = cc
resolve_authorized_context-ActsFor memberships (authenticated p) o c h =
    elim (Result-cases (memberships p o)) [
      | inr (e, failed) ↦ ground arith
      | inl (m, found) ↦ authorize_member-ActsFor memberships p o m c found (ground arith)
    ]

-- A handler that fails the authorization throws and leaves the store.
pub record Refuses {S A : Type 0} (m : Exec S HttpError A) : Type 0 where
  pub at : (s : S) → (e : HttpError) × (m s ≡ (err e, s))

Refuses-lift :
    {S A B : Type 0} (r : Result HttpError A) (f : A → Exec S HttpError B)
    → ((a : A) → r ≡ ok a → Refuses (f a))
    → Refuses (Exec.◌>>=◌ (lift r) f)
Refuses-lift (ok a) f h = record { at = (h a refl).at }
Refuses-lift (err e) f h = record { at = λ s. (e, refl) }

module _ {S : Type 0} (store : DesktopLinkRecordStore S) (dates : Dates) (sha256_hex : Text → Text)
    (memberships : Memberships) (identity : TrustedPrincipalResolution) (raw : Text) where
  no_context :
      (e : HttpError)
      → (require_identifier (str raw) >>= λ o. resolve_authorized_context memberships identity o)
        ≡ err e
      → {A : Type 0} (o : Text) (f : AuthorizedContext → Exec S HttpError A)
      → require_identifier (str raw) ≡ ok o
      → Refuses (Exec.◌>>=◌ (lift (resolve_authorized_context memberships identity o)) f)
  no_context e h o f eo =
      Refuses-lift (resolve_authorized_context memberships identity o) f
        (λ c ec. absurd (ground arith))

  -- If the path's organization is no valid identifier, or the caller may not link devices in it, every
  -- handler throws and leaves the store as it was, whatever the store does.
  pub unauthorized-Refuses :
      (raw_id : Text) (body : Value) (now : ℕ) (id token : Text) (e : HttpError)
      → (require_identifier (str raw) >>= λ o. resolve_authorized_context memberships identity o)
        ≡ err e
      → Refuses (handle_list store dates sha256_hex memberships identity raw)
        × Refuses (handle_issue store dates sha256_hex memberships identity raw body now id token)
        × Refuses (handle_status store dates sha256_hex memberships identity raw raw_id now)
        × Refuses (handle_revoke store dates sha256_hex memberships identity raw raw_id now)
        × Refuses (handle_consume store dates sha256_hex memberships identity raw raw_id body now)
  unfolding handle_list handle_issue handle_status handle_revoke handle_consume
  unauthorized-Refuses raw_id body now id token e h = (
    search (Refuses-lift, no_context e h),
    search (Refuses-lift, no_context e h),
    search (Refuses-lift, no_context e h),
    search (Refuses-lift, no_context e h),
    search (Refuses-lift, no_context e h),
  )
