-- ===== src/DesktopLink/Checks.antt =====
-- desktop-link.service.ts: its types, and the checks that its operations make.
use vsn_voice_ai.Prelude.{
  ℕ, Bool, ◌&&◌, ◌||◌, not, Option, none, some, List, [], ◌∷◌, ltb, if◌then◌else◌,
}
use vsn_voice_ai.Js.Text.{Text, text_eq, is_blank}
use vsn_voice_ai.Js.Number.{Number, int, pos, is_safe_integer}
use vsn_voice_ai.Js.Hex.{hex_bytes}
use vsn_voice_ai.Js.Result
use vsn_voice_ai.Js.Result.{Result, ok, err}
use vsn_voice_ai.Js.Exec.{Exec, pure, throw}
use vsn_voice_ai.Js.Date.{Dates, to_iso_string, at_or_after}
use vsn_voice_ai.Identity.Principal.{AuthenticatedPrincipal}
use vsn_voice_ai.DesktopLink.Record.{
  DesktopLinkRecord, DesktopLinkStatus, expired, is_issued, is_consumed, Failure, denied,
  range_error, Denial, subject_id_required, organization_id_required, device_id_required,
  record_id_required, exchange_token_required, ttl_out_of_range, invalid_inventory,
  record_unavailable, invalid_or_consumed, exchange_expired, subject_mismatch,
  organization_mismatch, device_mismatch,
}
use mathlib.Core.Option.{get_or}

abbrev pub default_ttl_ms : ℕ
default_ttl_ms = 300_000

abbrev pub min_ttl_ms : ℕ
min_ttl_ms = 30_000

abbrev pub max_ttl_ms : ℕ
max_ttl_ms = 600_000

abbrev pub linked_device_page_size : ℕ
linked_device_page_size = 50

pub record DesktopLinkIssue : Type 0 where
  pub record_id : Text
  pub exchange_token : Text
  pub expires_at : Text

pub record DesktopLinkBinding : Type 0 where
  pub record_id : Text
  pub subject_id : Text
  pub organization_id : Text
  pub device_id : Text
  pub consumed_at : Text

pub record DesktopLinkStatusSnapshot : Type 0 where
  pub record_id : Text
  pub organization_id : Text
  pub device_id : Text
  pub status : DesktopLinkStatus
  pub expires_at : Text
  pub consumed_at : Option Text

pub record LinkedDesktopSnapshot : Type 0 where
  pub record_id : Text
  pub device_id : Text
  pub linked_at : Text

pub record LinkedDesktopInventory : Type 0 where
  pub devices : List LinkedDesktopSnapshot
  pub has_more : Bool

-- Both digests are decoded from hexadecimal before they are compared.
unfoldable pub safe_digest_equal : Text → Text → Bool
safe_digest_equal left right = text_eq (hex_bytes left) (hex_bytes right)

abbrev pub require_non_empty : Text → Denial → Result Failure (Unit {0})
require_non_empty value reason = Result.guard (not (is_blank value)) (denied reason)

-- The leading checks of `inspect` and `revoke`.
unfoldable pub require_lookup : AuthenticatedPrincipal → Text → Text → Result Failure (Unit {0})
require_lookup principal organization_id record_id =
    Result.◌>>◌ (require_non_empty principal.subject_id subject_id_required) (
      Result.◌>>◌ (require_non_empty organization_id organization_id_required)
        (require_non_empty record_id record_id_required))

-- Those of `consume`.
unfoldable pub require_exchange :
    AuthenticatedPrincipal → Text → Text → Text → Text → Result Failure (Unit {0})
require_exchange principal organization_id device_id record_id exchange_token =
    Result.◌>>◌ (require_non_empty principal.subject_id subject_id_required) (
      Result.◌>>◌ (require_non_empty organization_id organization_id_required) (
        Result.◌>>◌ (require_non_empty device_id device_id_required) (
          Result.◌>>◌ (require_non_empty record_id record_id_required)
            (require_non_empty exchange_token exchange_token_required))))

-- A safe integer between the bounds; a negative one is below the smaller.
ttl_in_range : Number → Result Failure ℕ
ttl_in_range (int (pos n)) =
    if not (is_safe_integer (int (pos n))) || ltb n min_ttl_ms || ltb max_ttl_ms n
    then err (denied ttl_out_of_range)
    else ok n
ttl_in_range _ = err (denied ttl_out_of_range)

unfoldable pub ttl_milliseconds : Option Number → Result Failure ℕ
unfolding ttl_in_range
ttl_milliseconds ttl = ttl_in_range (get_or ttl (int (pos default_ttl_ms)))

-- `record.subject_id === … && record.organization_id === …`
abbrev pub owned : Text → Text → DesktopLinkRecord → Bool
owned subject_id organization_id r =
    text_eq r.subject_id subject_id && text_eq r.organization_id organization_id

-- The record of a lookup, if the caller owns it.
abbrev pub own_record :
    {S : Type 0} → Text → Text → Option DesktopLinkRecord → Exec S Failure DesktopLinkRecord
own_record s o none = throw (denied record_unavailable)
own_record s o (some r) = if owned s o r then pure r else throw (denied record_unavailable)

abbrev pub snapshot_of :
    DesktopLinkRecord → DesktopLinkStatus → Option Text → DesktopLinkStatusSnapshot
snapshot_of r status consumed_at = record {
  record_id = r.record_id;
  organization_id = r.organization_id;
  device_id = r.device_id;
  status = status;
  expires_at = r.expires_at;
  consumed_at = consumed_at;
}

-- One round of the `map` in `listLinked`.
unfoldable pub linked_snapshot : DesktopLinkRecord → Result Failure LinkedDesktopSnapshot
linked_snapshot r = elim r.consumed_at [
  | none ↦ err (denied invalid_inventory)
  | some at ↦
      if is_consumed r.status
      then ok (record { record_id = r.record_id; device_id = r.device_id; linked_at = at })
      else err (denied invalid_inventory)
]

unfoldable pub linked_snapshots :
    List DesktopLinkRecord → Result Failure (List LinkedDesktopSnapshot)
unfolding linked_snapshot
linked_snapshots [] = ok []
linked_snapshots (r ∷ rs) =
    Result.◌>>=◌ (linked_snapshot r) λ d. Result.◌>>=◌ (linked_snapshots rs) λ ds. ok (d ∷ ds)

-- The record of a lookup, if it is issued and its digest is that of the supplied token.
abbrev pub exchangeable :
    {S : Type 0} → Text → Option DesktopLinkRecord → Exec S Failure DesktopLinkRecord
exchangeable digest none = throw (denied invalid_or_consumed)
exchangeable digest (some r) =
    if is_issued r.status && safe_digest_equal r.token_digest digest
    then pure r
    else throw (denied invalid_or_consumed)

-- The checks of `consume` on the record, and the time at which to consume it.
unfoldable pub exchange_time :
    Dates → AuthenticatedPrincipal → Text → Text → ℕ → DesktopLinkRecord → Result Failure Text
exchange_time dates principal organization_id device_id now r =
    Result.◌>>◌
      (Result.guard (not (at_or_after (some now) (dates.parse r.expires_at)))
        (denied exchange_expired))
      (Result.◌>>◌
        (Result.guard (text_eq r.subject_id principal.subject_id) (denied subject_mismatch))
        (Result.◌>>◌
          (Result.guard (text_eq r.organization_id organization_id) (denied organization_mismatch))
          (Result.◌>>◌ (Result.guard (text_eq r.device_id device_id) (denied device_mismatch))
            (to_iso_string dates range_error now))))

-- The record that an update returned, if it won.
abbrev pub won : {S : Type 0} → Denial → Option DesktopLinkRecord → Exec S Failure DesktopLinkRecord
won lost none = throw (denied lost)
won lost (some r) = pure r

-- The status that `inspect` reports.
unfoldable pub effective_status : Dates → DesktopLinkRecord → ℕ → DesktopLinkStatus
effective_status dates r now =
    if is_issued r.status && at_or_after (some now) (dates.parse r.expires_at)
    then expired
    else r.status
