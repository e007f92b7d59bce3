-- ===== src/DesktopLink/Record.antt =====
-- desktop-link-record.ts: the record of an exchange, and the store's interface. The errors are
-- those of desktop-link.service.ts, runtime-desktop-link-record-store.ts, and of the language.
use vsn_voice_ai.Prelude.{ℕ, Bool, true, false, Option, List}
use vsn_voice_ai.Js.Text.{Text}
use vsn_voice_ai.Js.Exec.{Exec}

pub data DesktopLinkStatus : Type 0 where
  issued consumed revoked expired : DesktopLinkStatus

pub record DesktopLinkRecord : Type 0 where
  pub record_id : Text
  pub token_digest : Text
  pub subject_id : Text
  pub organization_id : Text
  pub device_id : Text
  pub issued_at : Text
  pub expires_at : Text
  pub status : DesktopLinkStatus
  pub consumed_at : Option Text

-- `status === 'issued'` and its kin
abbrev pub is_issued : DesktopLinkStatus → Bool
is_issued issued = true
is_issued _ = false

abbrev pub is_consumed : DesktopLinkStatus → Bool
is_consumed consumed = true
is_consumed _ = false

abbrev pub is_revoked : DesktopLinkStatus → Bool
is_revoked revoked = true
is_revoked _ = false

-- The reasons of `DesktopLinkDeniedError`, in the service's order.
pub data Denial : Type 0 where
  subject_id_required organization_id_required device_id_required : Denial
  record_id_required exchange_token_required : Denial
  permission_required ttl_out_of_range invalid_inventory : Denial
  record_unavailable not_revocable revoke_lost_race : Denial
  invalid_or_consumed exchange_expired : Denial
  subject_mismatch organization_mismatch device_mismatch lost_single_use_race : Denial

pub data Failure : Type 0 where
  denied : Denial → Failure
  -- DesktopLinkPersistenceUnavailableError
  unavailable : Failure
  -- Error('desktop link record already exists')
  already_exists : Failure
  -- TypeError('invalid issued desktop link record')
  invalid_record : Failure
  -- RangeError of `toISOString`
  range_error : Failure
  -- whatever the database client throws
  query_failed : Failure

pub record DesktopLinkRecordStore (S : Type 0) : Type 0 where
  pub put : DesktopLinkRecord → Exec S Failure (Unit {0})
  pub get : Text → Exec S Failure (Option DesktopLinkRecord)
  pub consume_if_issued : Text → Text → Text → Exec S Failure (Option DesktopLinkRecord)
  pub revoke_if_issued : Text → Text → Text → Text → Exec S Failure (Option DesktopLinkRecord)
  pub list_latest_consumed : Text → Text → ℕ → Exec S Failure (List DesktopLinkRecord)
