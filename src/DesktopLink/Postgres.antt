-- ===== src/DesktopLink/Postgres.antt =====
-- postgres-desktop-link-record-store.ts. The database client is a parameter: a call with one of the
-- five statements and its values, that returns rows of any values or throws.
pub mod Rows
pub mod Returned
use vsn_voice_ai.Prelude.{
  ℕ, ◌≡◌, Bool, true, false, ◌&&◌, ◌||◌, not, Option, none, some, List, [], ◌∷◌, leb, ltb, ◌==◌,
  length, all, is_some, if◌then◌else◌,
}
use vsn_voice_ai.Js.Text.{Text, text, text_eq}
use vsn_voice_ai.Js.Number.{max_safe_integer, int, pos}
use vsn_voice_ai.Js.Value.{Value, null, str, date, num, as_text}
use vsn_voice_ai.Js.Exec.{Exec, pure, throw, guard, ◌>>=◌, ◌>>◌}
use vsn_voice_ai.Js.Date.{Dates, at_or_after, max_time}
use vsn_voice_ai.Identity.Principal.{is_bounded_identifier, is_bounded_value}
use vsn_voice_ai.DesktopLink.Record.{
  DesktopLinkRecord, DesktopLinkRecordStore, DesktopLinkStatus, issued, consumed, revoked, expired,
  is_issued, is_consumed, Failure, invalid_record,
}
use mathlib.Core.Option.{get_or}

pub data Statement : Type 0 where
  insert_desktop_link get_desktop_link consume_desktop_link : Statement
  revoke_desktop_link list_latest_consumed_desktop_links : Statement

pub record Row : Type 0 where
  pub record_id : Value
  pub token_digest : Value
  pub subject_id : Value
  pub organization_id : Value
  pub device_id : Value
  pub issued_at : Value
  pub expires_at : Value
  pub status : Value
  pub consumed_at : Value

-- `/^[0-9a-f]{64}$/`
unfoldable pub is_sha256_hex : Text → Bool
is_sha256_hex s =
    length s == 64 && all (λ c. leb b'0' c && leb c b'9' || leb b'a' c && leb c b'f') s

abbrev pub is_sha256_value : Option Text → Bool
is_sha256_value none = false
is_sha256_value (some s) = is_sha256_hex s

abbrev pub status_name : DesktopLinkStatus → Text
status_name issued = text "issued"
status_name consumed = text "consumed"
status_name revoked = text "revoked"
status_name expired = text "expired"

-- `isStatus`, with the status that it finds
unfoldable pub status_of : Option Text → Option DesktopLinkStatus
status_of none = none
status_of (some s) =
    if text_eq s (text "issued")
    then some issued
    else if text_eq s (text "consumed")
    then some consumed
    else if text_eq s (text "revoked")
    then some revoked
    else if text_eq s (text "expired")
    then some expired
    else none

-- An instant as a text; the time value of a date is never past the last date.
iso_of : Dates → Option ℕ → Option Text
iso_of dates none = none
iso_of dates (some t) = if leb t max_time then some (dates.to_iso t) else none

unfoldable pub to_iso_timestamp : Dates → Value → Option Text
unfolding iso_of
to_iso_timestamp dates (date t) = iso_of dates t
to_iso_timestamp dates (str s) = iso_of dates (dates.parse s)
to_iso_timestamp dates _ = none

-- `row.consumed_at === null ? null : toIsoTimestamp(row.consumed_at)`
unfoldable pub consumed_timestamp : Dates → Value → Option Text
consumed_timestamp dates null = none
consumed_timestamp dates v = to_iso_timestamp dates v

-- The last test: the exchange ends after it begins, and exactly a consumed one has a time of it.
unfoldable pub coherent : Dates → DesktopLinkStatus → Text → Text → Option Text → Bool
coherent dates status issued_at expires_at consumed_at =
    not (at_or_after (dates.parse issued_at) (dates.parse expires_at))
    && not (is_consumed status && not (is_some consumed_at))
    && not (not (is_consumed status) && is_some consumed_at)

-- The identifiers and the digest of a row are in range.
unfoldable pub has_valid_columns : Row → Bool
has_valid_columns row =
    is_bounded_value (as_text row.record_id) 128
    && is_sha256_value (as_text row.token_digest)
    && is_bounded_value (as_text row.subject_id) 128
    && is_bounded_value (as_text row.organization_id) 128
    && is_bounded_value (as_text row.device_id) 256

abbrev pub column : Value → Text
column v = get_or (as_text v) []

abbrev pub record_of : Row → DesktopLinkStatus → Text → Text → Option Text → DesktopLinkRecord
record_of row status issued_at expires_at consumed_at = record {
  record_id = column row.record_id;
  token_digest = column row.token_digest;
  subject_id = column row.subject_id;
  organization_id = column row.organization_id;
  device_id = column row.device_id;
  issued_at = issued_at;
  expires_at = expires_at;
  status = status;
  consumed_at = consumed_at;
}

checked_record :
    Dates
    → Row
    → Option DesktopLinkStatus
    → Option Text
    → Option Text
    → Option Text
    → Option DesktopLinkRecord
checked_record dates row (some status) (some issued_at) (some expires_at) consumed_at =
    if coherent dates status issued_at expires_at consumed_at
    then some (record_of row status issued_at expires_at consumed_at)
    else none
checked_record dates row _ _ _ _ = none

unfoldable pub to_desktop_link_record : Dates → Row → Option DesktopLinkRecord
unfolding checked_record
to_desktop_link_record dates row =
    if has_valid_columns row
    then checked_record dates row (status_of (as_text row.status))
        (to_iso_timestamp dates row.issued_at) (to_iso_timestamp dates row.expires_at)
        (consumed_timestamp dates row.consumed_at)
    else none

abbrev pub nullable_text : Option Text → Value
nullable_text none = null
nullable_text (some s) = str s

-- The row that `validateIssuedRecord` checks.
abbrev pub row_of : DesktopLinkRecord → Row
row_of r = record {
  record_id = str r.record_id;
  token_digest = str r.token_digest;
  subject_id = str r.subject_id;
  organization_id = str r.organization_id;
  device_id = str r.device_id;
  issued_at = str r.issued_at;
  expires_at = str r.expires_at;
  status = str (status_name r.status);
  consumed_at = nullable_text r.consumed_at;
}

unfoldable pub is_valid_issued : Dates → DesktopLinkRecord → Bool
is_valid_issued dates r = is_issued r.status && is_some (to_desktop_link_record dates (row_of r))

-- The record of a result that has exactly one row.
abbrev pub only_record : Dates → List Row → Option DesktopLinkRecord
only_record dates [] = none
only_record dates (row ∷ []) = to_desktop_link_record dates row
only_record dates (row ∷ more ∷ rows) = none

-- `map` and `filter` of `listLatestConsumed`
abbrev pub keep_consumed :
    Option DesktopLinkRecord → List DesktopLinkRecord → List DesktopLinkRecord
keep_consumed none rs = rs
keep_consumed (some r) rs = if is_consumed r.status && is_some r.consumed_at then r ∷ rs else rs

unfoldable pub consumed_records : Dates → List Row → List DesktopLinkRecord
consumed_records dates [] = []
consumed_records dates (row ∷ rows) =
    keep_consumed (to_desktop_link_record dates row) (consumed_records dates rows)

module _ {D : Type 0} (dates : Dates)
    (query : Statement → List Value → Exec D Failure (List Row)) where
  unfoldable pub put : DesktopLinkRecord → Exec D Failure (Unit {0})
  put r = do
    guard (is_valid_issued dates r) invalid_record
    rows ← query insert_desktop_link (
        str r.record_id
        ∷ str r.token_digest
        ∷ str r.subject_id
        ∷ str r.organization_id
        ∷ str r.device_id
        ∷ str r.issued_at
        ∷ str r.expires_at
        ∷ str (status_name r.status)
        ∷ null
        ∷ [])
    pure tt

  -- What the three methods on one record share: the query if the arguments are valid, and the record
  -- of its only row.
  unfoldable pub query_one :
      Bool → Statement → List Value → Exec D Failure (Option DesktopLinkRecord)
  query_one valid statement values =
      if valid then (do rows ← query statement values; pure (only_record dates rows)) else pure none

  unfoldable pub get : Text → Exec D Failure (Option DesktopLinkRecord)
  unfolding query_one
  get record_id =
      query_one (is_bounded_identifier record_id 128) get_desktop_link (str record_id ∷ [])

  consume_at : Text → Text → Option Text → Exec D Failure (Option DesktopLinkRecord)
  consume_at record_id digest none = pure none
  consume_at record_id digest (some at) =
      query_one (is_bounded_identifier record_id 128 && is_sha256_hex digest) consume_desktop_link
        (str record_id ∷ str digest ∷ str at ∷ [])

  unfoldable pub consume_if_issued : Text → Text → Text → Exec D Failure (Option DesktopLinkRecord)
  unfolding consume_at
  consume_if_issued record_id digest consumed_at =
      consume_at record_id digest (to_iso_timestamp dates (str consumed_at))

  revoke_at : Text → Text → Text → Option Text → Exec D Failure (Option DesktopLinkRecord)
  revoke_at record_id subject_id organization_id none = pure none
  revoke_at record_id subject_id organization_id (some at) =
      query_one
        (is_bounded_identifier record_id 128
          && is_bounded_identifier subject_id 128
          && is_bounded_identifier organization_id 128)
        revoke_desktop_link (str record_id ∷ str subject_id ∷ str organization_id ∷ str at ∷ [])

  unfoldable pub revoke_if_issued :
      Text → Text → Text → Text → Exec D Failure (Option DesktopLinkRecord)
  unfolding revoke_at
  revoke_if_issued record_id subject_id organization_id revoked_at =
      revoke_at record_id subject_id organization_id (to_iso_timestamp dates (str revoked_at))

  unfoldable pub list_latest_consumed : Text → Text → ℕ → Exec D Failure (List DesktopLinkRecord)
  list_latest_consumed subject_id organization_id limit =
      if not (is_bounded_identifier subject_id 128)
        || not (is_bounded_identifier organization_id 128)
        || not (leb limit max_safe_integer)
        || ltb limit 1
        || ltb 100 limit
      then pure []
      else (do
        rows ←
            query list_latest_consumed_desktop_links
              (str subject_id ∷ str organization_id ∷ num (int (pos limit)) ∷ [])
        pure (consumed_records dates rows))

  -- `new PostgresDesktopLinkRecordStore(client)` behind its interface
  abbrev pub postgres_store : DesktopLinkRecordStore D
  postgres_store = record {
    put = put;
    get = get;
    consume_if_issued = consume_if_issued;
    revoke_if_issued = revoke_if_issued;
    list_latest_consumed = list_latest_consumed;
  }
