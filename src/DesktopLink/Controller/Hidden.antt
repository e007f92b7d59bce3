-- ===== src/DesktopLink/Controller/Hidden.antt =====
-- desktop-link.controller.ts over the in-memory store: requests for records of others.
use vsn_voice_ai.Prelude.{ℕ, ◌≡◌, Bool, true, not, none, some, arith, Option-cases, inl, inr}
use vsn_voice_ai.Js.Text.{Text}
use vsn_voice_ai.Js.Map
use vsn_voice_ai.Js.Value.{str}
use vsn_voice_ai.Js.Result.{ok, err}
use vsn_voice_ai.Js.Exec.{catching}
use vsn_voice_ai.Js.Date.{Dates}
use vsn_voice_ai.Identity.Trusted.{TrustedPrincipalResolution}
use vsn_voice_ai.DesktopLink.Memory.{Memory, memory_store, get}
use vsn_voice_ai.DesktopLink.Service.{owned, inspect, revoke, require_lookup}
use vsn_voice_ai.DesktopLink.Controller.{
  AuthorizedContext, Memberships, not_found, resolve_authorized_context, require_identifier,
  require_record_id, handle_status, handle_revoke, lookup_error,
}

-- The record is missing, or of another subject or organization.
abbrev pub is_hidden : AuthorizedContext → Text → Text → Memory → Bool
is_hidden c o id m = elim (Map.get m id) [
  | none ↦ true
  | some r ↦ not (owned c.principal.subject_id o r)
]

module _ (dates : Dates) (locale_after : Text → Text → Bool) (c : AuthorizedContext) (o id : Text)
    (now : ℕ) (m : Memory) where
  inspect-is_hidden :
      is_hidden c o id m ≡ true
      → catching lookup_error
          (inspect (memory_store dates locale_after) dates c.principal o id now)
          m
        ≡ (err not_found, m)
  unfolding inspect get require_lookup lookup_error
  inspect-is_hidden h = elim (Option-cases (Map.get m id)) [
    | inl missing ↦ ground arith
    | inr (r, found) ↦ ground arith
  ]

  revoke-is_hidden :
      is_hidden c o id m ≡ true
      → catching lookup_error
          (revoke (memory_store dates locale_after) dates c.principal o id now)
          m
        ≡ (err not_found, m)
  unfolding revoke get require_lookup lookup_error
  revoke-is_hidden h = elim (Option-cases (Map.get m id)) [
    | inl missing ↦ ground arith
    | inr (r, found) ↦ ground arith
  ]

module _ (dates : Dates) (locale_after : Text → Text → Bool) (sha256_hex : Text → Text)
    (memberships : Memberships) (identity : TrustedPrincipalResolution) (raw raw_id : Text) where
  -- An authorized request for the status or the revocation of a record that is missing, or is of
  -- another subject or organization, is answered as not found, and leaves the store as it was.
  pub handle_status-not_found :
      (o id : Text) (c : AuthorizedContext) (now : ℕ) (m : Memory)
      → require_identifier (str raw) ≡ ok o
      → require_record_id raw_id ≡ ok id
      → resolve_authorized_context memberships identity o ≡ ok c
      → is_hidden c o id m ≡ true
      → (handle_status
            (memory_store dates locale_after)
            dates
            sha256_hex
            memberships
            identity
            raw
            raw_id
            now
            m
          ≡ (err not_found, m))
        × (handle_revoke
              (memory_store dates locale_after)
              dates
              sha256_hex
              memberships
              identity
              raw
              raw_id
              now
              m
            ≡ (err not_found, m))
  unfolding handle_status handle_revoke
  handle_status-not_found o id c now m eo ei ec hidden = (
    simp (eo, ei, ec) (inspect-is_hidden dates locale_after c o id now m hidden),
    simp (eo, ei, ec) (revoke-is_hidden dates locale_after c o id now m hidden),
  )
