-- ===== src/DesktopLink/Service.antt =====
-- desktop-link.service.ts: DesktopLinkService, over any record store. The clock's reading, the random
-- record id and the random token are arguments, as are the language's dates and SHA-256.
pub mod Consume
pub mod Linked
pub mod Inspect
pub mod Revoke
pub mod Issue
pub mod SingleUse
pub mod Atomic
use vsn_voice_ai.Prelude.{
  ℕ, ◌+◌, ◌≡◌, Bool, true, false, ◌&&◌, ◌||◌, not, Option, none, some, List, [], ◌∷◌, ltb, leb,
  if◌then◌else◌, take, length, is_some,
}
use vsn_voice_ai.Js.Text.{Text, text, text_eq, is_blank, includes}
use vsn_voice_ai.Js.Number.{Number, int, pos, is_safe_integer}
use vsn_voice_ai.Js.Hex.{hex_bytes}
use vsn_voice_ai.Js.Result
use vsn_voice_ai.Js.Result.{Result, ok, err}
use vsn_voice_ai.Js.Exec.{Exec, pure, lift, throw, guard, ◌>>=◌, ◌>>◌}
use vsn_voice_ai.Js.Date.{Dates, to_iso_string, at_or_after}
use vsn_voice_ai.Identity.Principal.{AuthenticatedPrincipal}
use vsn_voice_ai.Organizations.Authorization.{AuthorizationContext}
use vsn_voice_ai.DesktopLink.Record.{
  DesktopLinkRecord, DesktopLinkRecordStore, DesktopLinkStatus, issued, consumed, revoked, expired,
  is_issued, is_consumed, is_revoked, Failure, denied, range_error, Denial, subject_id_required,
  organization_id_required, device_id_required, record_id_required, exchange_token_required,
  permission_required, ttl_out_of_range, invalid_inventory, record_unavailable, not_revocable,
  revoke_lost_race, invalid_or_consumed, exchange_expired, subject_mismatch, organization_mismatch,
  device_mismatch, lost_single_use_race,
}
use mathlib.Core.Option.{get_or}
pub use vsn_voice_ai.DesktopLink.Checks.{
  default_ttl_ms, min_ttl_ms, max_ttl_ms, linked_device_page_size, DesktopLinkIssue,
  DesktopLinkBinding, DesktopLinkStatusSnapshot, LinkedDesktopSnapshot, LinkedDesktopInventory,
  require_non_empty, owned, own_record, snapshot_of, exchangeable, won,
}
unfoldable pub use vsn_voice_ai.DesktopLink.Checks.{
  safe_digest_equal, require_lookup, require_exchange, ttl_milliseconds, linked_snapshots,
  exchange_time, effective_status, linked_snapshot,
}

module _ {S : Type 0} (store : DesktopLinkRecordStore S) (dates : Dates) where
  module _ (sha256_hex : Text → Text) where
    unfoldable pub issue :
        AuthorizationContext
        → Text
        → Option Number
        → ℕ
        → Text
        → Text
        → Exec S Failure DesktopLinkIssue
    unfolding ttl_milliseconds
    issue authorization device_id ttl_ms now random_id random_token = do
      lift (require_non_empty device_id device_id_required)
      guard (includes authorization.permissions (text "device.link")) (denied permission_required)
      ttl ← lift (ttl_milliseconds ttl_ms)
      issued_at ← lift (to_iso_string dates range_error now)
      expires_at ← lift (to_iso_string dates range_error (now + ttl))
      store.put (record {
        record_id = random_id;
        token_digest = sha256_hex random_token;
        subject_id = authorization.subject_id;
        organization_id = authorization.organization_id;
        device_id = device_id;
        issued_at = issued_at;
        expires_at = expires_at;
        status = issued;
        consumed_at = none;
      })
      pure
          (record { record_id = random_id; exchange_token = random_token; expires_at = expires_at })

    -- `consume` up to its second wait: the time at which to consume the record.
    unfoldable pub consume_check :
        AuthenticatedPrincipal → Text → Text → Text → Text → ℕ → Exec S Failure Text
    unfolding safe_digest_equal
    consume_check principal organization_id device_id record_id exchange_token now = do
      lift (require_exchange principal organization_id device_id record_id exchange_token)
      found ← store.get record_id
      r ← exchangeable (sha256_hex exchange_token) found
      lift (exchange_time dates principal organization_id device_id now r)

    -- The rest of `consume`.
    unfoldable pub consume_commit : Text → Text → Text → Exec S Failure DesktopLinkBinding
    consume_commit record_id exchange_token consumed_at = do
      result ← store.consume_if_issued record_id (sha256_hex exchange_token) consumed_at
      r ← won lost_single_use_race result
      pure (record {
        record_id = r.record_id;
        subject_id = r.subject_id;
        organization_id = r.organization_id;
        device_id = r.device_id;
        consumed_at = consumed_at;
      })

    unfoldable pub consume :
        AuthenticatedPrincipal → Text → Text → Text → Text → ℕ → Exec S Failure DesktopLinkBinding
    unfolding consume_check consume_commit
    consume principal organization_id device_id record_id exchange_token now = do
      consumed_at ← consume_check principal organization_id device_id record_id exchange_token now
      consume_commit record_id exchange_token consumed_at

  unfoldable pub list_linked : AuthenticatedPrincipal → Text → Exec S Failure LinkedDesktopInventory
  unfolding linked_snapshots
  list_linked principal organization_id = do
    lift (require_non_empty principal.subject_id subject_id_required)
    lift (require_non_empty organization_id organization_id_required)
    records ←
        store.list_latest_consumed principal.subject_id organization_id
          (linked_device_page_size + 1)
    devices ← lift (linked_snapshots (take linked_device_page_size records))
    pure (record { devices = devices; has_more = ltb linked_device_page_size (length records) })

  unfoldable pub inspect :
      AuthenticatedPrincipal → Text → Text → ℕ → Exec S Failure DesktopLinkStatusSnapshot
  unfolding effective_status
  inspect principal organization_id record_id now = do
    lift (require_lookup principal organization_id record_id)
    found ← store.get record_id
    r ← own_record principal.subject_id organization_id found
    pure (snapshot_of r (effective_status dates r now) r.consumed_at)

  -- `revoke` past its lookup.
  unfoldable pub revoke_own :
      AuthenticatedPrincipal
      → Text
      → Text
      → ℕ
      → DesktopLinkRecord
      → Exec S Failure DesktopLinkStatusSnapshot
  revoke_own principal organization_id record_id now r =
      if is_revoked r.status then pure (snapshot_of r revoked none) else do
        guard (is_issued r.status && not (at_or_after (some now) (dates.parse r.expires_at)))
            (denied not_revocable)
        revoked_at ← lift (to_iso_string dates range_error now)
        result ← store.revoke_if_issued record_id principal.subject_id organization_id revoked_at
        q ← won revoke_lost_race result
        pure (snapshot_of q revoked none)

  unfoldable pub revoke :
      AuthenticatedPrincipal → Text → Text → ℕ → Exec S Failure DesktopLinkStatusSnapshot
  unfolding revoke_own
  revoke principal organization_id record_id now = do
    lift (require_lookup principal organization_id record_id)
    found ← store.get record_id
    r ← own_record principal.subject_id organization_id found
    revoke_own principal organization_id record_id now r
