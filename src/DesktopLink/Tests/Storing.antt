-- ===== src/DesktopLink/Tests/Storing.antt =====
-- desktop-link-record.ts and the other stores, on one exchange.
use vsn_voice_ai.Prelude.{◌≡◌, refl, ◌↔◌, ◌⊎◌, ◌≤◌, false, some, List, [], ◌∷◌, All, arith}
use vsn_voice_ai.Js.Text.{Text, text, text_eq, trim}
use vsn_voice_ai.Js.Map
use vsn_voice_ai.Js.Value.{Value}
use vsn_voice_ai.Js.Result.{ok}
use vsn_voice_ai.Js.Exec.{Exec, pure}
use vsn_voice_ai.DesktopLink.Record.{DesktopLinkRecord, Failure, revoked}
use vsn_voice_ai.DesktopLink.Memory.{
  Memory, memory_store, list_latest_consumed, latest_by_device, sort, linked_to,
}
use vsn_voice_ai.DesktopLink.Memory.Calls.{
  StoreCall, put_call, consume_call, revoke_call, run_calls,
}
use vsn_voice_ai.DesktopLink.Memory.Race.{count_wins, count_wins-le_one, run_calls-settled}
use vsn_voice_ai.DesktopLink.Memory.Machine.{Runs, linked, terms_of, exchange_at}
use vsn_voice_ai.DesktopLink.Memory.Machine.Implemented.{run_calls_iff}
use vsn_voice_ai.DesktopLink.Memory.Inventory.{
  IsPage, Represents, list_latest_consumed-IsPage, list_latest_consumed_complete,
}
use vsn_voice_ai.Identity.Principal.{is_bounded_identifier}
use vsn_voice_ai.DesktopLink.Postgres.{
  has_valid_columns, is_sha256_hex, status_of, to_iso_timestamp, coherent, consumed_timestamp,
  consumed_records, consume_desktop_link, revoke_desktop_link, list_latest_consumed_desktop_links,
  Statement, Row, get, to_desktop_link_record, row_of,
}
use vsn_voice_ai.DesktopLink.Postgres.Rows.{IsWellFormed, to_desktop_link_record_iff}
use vsn_voice_ai.DesktopLink.Postgres.Returned.{IsListed, postgres_store-Yields}
use vsn_voice_ai.DesktopLink.Tests.{
  one_unit_dates, never_after, prefixed, acme, link, token, open_record, used_record, open_store,
  used_store,
}

-- Two requests consume the exchange, a third revokes it.
abbrev race : List StoreCall
race =
    consume_call link (prefixed token) (2000 ∷ [])
    ∷ consume_call link (prefixed token) (2001 ∷ [])
    ∷ revoke_call link (text "ann") acme (2002 ∷ [])
    ∷ []

one_win : count_wins one_unit_dates link race open_store ≡ 1
unfolding count_wins vsn_voice_ai.DesktopLink.Memory.Calls.wins
    vsn_voice_ai.DesktopLink.Memory.consume_if_issued Map.get text_eq
    vsn_voice_ai.DesktopLink.Memory.Calls.run_call Map.set
    vsn_voice_ai.DesktopLink.Memory.revoke_if_issued
one_win = refl

count_wins-le_one_example : count_wins one_unit_dates link race open_store ≤ 1
count_wins-le_one_example = count_wins-le_one one_unit_dates race open_store link

run_calls_iff_example :
    Runs one_unit_dates link race
      (exchange_at open_store link)
      (linked (terms_of open_record) (some (2000 ∷ [])))
    ↔ (exchange_at (run_calls one_unit_dates race open_store) link
        ≡ linked (terms_of open_record) (some (2000 ∷ [])))
run_calls_iff_example =
    run_calls_iff one_unit_dates link race open_store
      (linked (terms_of open_record) (some (2000 ∷ [])))

-- The first of the three requests links the device.
race_links :
    exchange_at (run_calls one_unit_dates race open_store) link
    ≡ linked (terms_of open_record) (some (2000 ∷ []))
unfolding run_calls vsn_voice_ai.DesktopLink.Memory.consume_if_issued Map.get text_eq Map.set
    vsn_voice_ai.DesktopLink.Memory.Calls.run_call vsn_voice_ai.DesktopLink.Memory.revoke_if_issued
race_links = refl

run_calls-settled_example :
    Map.get (run_calls one_unit_dates (put_call open_record ∷ race) used_store) link
    ≡ some used_record
unfolding Map.get text_eq
run_calls-settled_example =
    run_calls-settled one_unit_dates (put_call open_record ∷ race) used_store link used_record refl
      refl

list_latest_consumed-IsPage_example :
    (page : List DesktopLinkRecord) × (list_latest_consumed one_unit_dates never_after
        (text "ann")
        acme
        51
        used_store
      ≡ (ok page, used_store))
    × IsPage one_unit_dates never_after (text "ann") acme 51 page
list_latest_consumed-IsPage_example =
    list_latest_consumed-IsPage one_unit_dates never_after (text "ann") acme 51 used_store

list_latest_consumed_complete_example :
    All
      (λ r.
        (linked_to (text "ann") acme r ≡ false)
        ⊎ Represents one_unit_dates never_after (used_record ∷ []) r)
      (used_record ∷ [])
unfolding list_latest_consumed latest_by_device sort Map.get Map.set text_eq trim
list_latest_consumed_complete_example =
    list_latest_consumed_complete one_unit_dates never_after (text "ann") acme 51 used_store
      (used_record ∷ []) refl refl refl (omega arith) (omega arith) (refl, tt)

-- Exchanges whose digest is one of SHA-256: issued, linked and ended.
abbrev digest : Text
digest = text "0123456789abcdef0123456789abcdef0123456789abcdef0123456789abcdef"

abbrev stored_open : DesktopLinkRecord
stored_open = record open_record { token_digest = digest }

abbrev stored_used : DesktopLinkRecord
stored_used = record used_record { token_digest = digest }

abbrev stored_ended : DesktopLinkRecord
stored_ended = record stored_open { status = revoked }

to_desktop_link_record_iff_example :
    (((row : Row) × (to_desktop_link_record one_unit_dates row ≡ some stored_open))
      ↔ IsWellFormed one_unit_dates stored_open)
    × ((to_desktop_link_record one_unit_dates (row_of stored_open) ≡ some stored_open)
        ↔ IsWellFormed one_unit_dates stored_open)
to_desktop_link_record_iff_example = to_desktop_link_record_iff one_unit_dates stored_open

reads_row : to_desktop_link_record one_unit_dates (row_of stored_open) ≡ some stored_open
unfolding to_desktop_link_record has_valid_columns is_bounded_identifier text_eq trim is_sha256_hex
    status_of to_iso_timestamp coherent consumed_timestamp
reads_row = refl

-- A database that answers each statement with the exchange that it makes.
abbrev answering : Statement → List Value → Exec (Unit {0}) Failure (List Row)
answering consume_desktop_link values = pure (row_of stored_used ∷ [])
answering revoke_desktop_link values = pure (row_of stored_ended ∷ [])
answering list_latest_consumed_desktop_links values = pure (row_of stored_used ∷ [])
answering _ values = pure (row_of stored_open ∷ [])

-- Each of the four calls returns a record of the database.
postgres_store-Yields_example :
    (Unit {0} → IsWellFormed one_unit_dates stored_open)
    × (Unit {0} → IsWellFormed one_unit_dates stored_used)
    × (Unit {0} → IsWellFormed one_unit_dates stored_ended)
    × (Unit {0} → All (IsListed one_unit_dates) (stored_used ∷ []))
unfolding to_desktop_link_record get vsn_voice_ai.DesktopLink.Postgres.consume_if_issued
    vsn_voice_ai.DesktopLink.Postgres.revoke_if_issued
    vsn_voice_ai.DesktopLink.Postgres.list_latest_consumed is_bounded_identifier to_iso_timestamp
    text_eq trim has_valid_columns is_sha256_hex consumed_records status_of coherent
    consumed_timestamp
postgres_store-Yields_example =
    postgres_store-Yields one_unit_dates answering link digest (2000 ∷ []) (text "ann") acme 51
