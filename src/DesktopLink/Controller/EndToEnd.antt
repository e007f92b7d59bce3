-- ===== src/DesktopLink/Controller/EndToEnd.antt =====
-- desktop-link.controller.ts over desktop-link.service.ts and the in-memory store, end to end.
use vsn_voice_ai.Prelude.{ℕ, ◌≡◌, refl, sym, ap, ◌∙◌, Bool, true, none}
use vsn_voice_ai.Js.Text.{Text}
use vsn_voice_ai.Js.Map
use vsn_voice_ai.Js.Map.{get-set}
use vsn_voice_ai.Js.Value.{Value, str}
use vsn_voice_ai.Js.Result.{ok}
use vsn_voice_ai.Js.Exec.Inversion.{lift-inv, catching-inv}
use vsn_voice_ai.Js.Date.{Dates}
use vsn_voice_ai.Identity.Trusted.{TrustedPrincipalResolution}
use vsn_voice_ai.DesktopLink.Record.{DesktopLinkRecord, is_issued}
use vsn_voice_ai.DesktopLink.Memory.{Memory, memory_store}
use vsn_voice_ai.DesktopLink.Service.{DesktopLinkIssue, issue}
use vsn_voice_ai.DesktopLink.Service.Issue.{issue-inv, issued_record}
use vsn_voice_ai.DesktopLink.Controller.{
  AuthorizedContext, Memberships, resolve_authorized_context, require_identifier, parse_issue_body,
  handle_issue, issue_error,
}
use vsn_voice_ai.DesktopLink.Controller.Tenancy.{ActsFor, resolve_authorized_context-ActsFor}

module _ (dates : Dates) (locale_after : Text → Text → Bool) (sha256_hex : Text → Text)
    (memberships : Memberships) (identity : TrustedPrincipalResolution) (raw : Text) where
  -- A request that is answered with an issued exchange acts for an authenticated principal with
  -- access by `device.link` to the organization of the path, and the one new record is issued, of that
  -- subject and that organization.
  pub handle_issue-tenant :
      (body : Value) (now : ℕ) (id token : Text) (m m' : Memory) (i : DesktopLinkIssue)
      → handle_issue
          (memory_store dates locale_after)
          dates
          sha256_hex
          memberships
          identity
          raw
          body
          now
          id
          token
          m
        ≡ (ok i, m')
      → (o : Text) × (c : AuthorizedContext) × (r : DesktopLinkRecord) × (require_identifier
            (str raw)
          ≡ ok o)
        × ActsFor memberships identity o c
        × (Map.get m i.record_id ≡ none)
        × (m' ≡ Map.set m i.record_id r)
        × (r.subject_id ≡ c.principal.subject_id)
        × (r.organization_id ≡ o)
        × (is_issued r.status ≡ true)
  unfolding handle_issue issued_record
  handle_issue-tenant body now id token m m' i h =
      let (o, eo, h₁) = lift-inv (require_identifier (str raw)) _ h in
      let (input, ei, h₂) = lift-inv (parse_issue_body body) _ h₁ in
      let (c, ec, h₃) = lift-inv (resolve_authorized_context memberships identity o) _ h₂ in
      let acts = resolve_authorized_context-ActsFor memberships identity o c ec in
      let (t, may, same, stored) =
        issue-inv dates locale_after sha256_hex c.authorization input.device_id input.ttl_ms now id
          token m m' i
          (catching-inv issue_error
            (issue (memory_store dates locale_after) dates sha256_hex c.authorization
              input.device_id input.ttl_ms now id token)
            m h₃) in
      let new = issued_record dates sha256_hex c.authorization input.device_id now id token t in
      let same_id : i.record_id ≡ id = ap (λ x. x.record_id) same in
      (
        o,
        c,
        new,
        eo,
        acts,
        ap (Map.get m) same_id ∙ may.fresh,
        stored ∙ ap (λ k. Map.set m k new) (sym same_id),
        ap (λ a. a.subject_id) acts.context,
        ap (λ a. a.organization_id) acts.context ∙ acts.access.organization,
        refl,
      )
