-- ===== src/DesktopLink/Memory.antt =====
-- desktop-link-record.ts: InMemoryDesktopLinkRecordStore.
pub mod Calls
pub mod Race
pub mod Machine
pub mod Sorting
pub mod Latest
pub mod Coverage
pub mod Inventory
use vsn_voice_ai.Prelude.{
  ℕ, ◌≡◌, Bool, true, false, ◌&&◌, ◌||◌, not, Option, none, some, List, [], ◌∷◌, ltb, leb,
  if◌then◌else◌, take, is_some,
}
use vsn_voice_ai.Js.Text.{Text, text_eq, is_blank}
use vsn_voice_ai.Js.Map
use vsn_voice_ai.Js.Result.{ok, err}
use vsn_voice_ai.Js.Exec.{Exec}
use vsn_voice_ai.Js.Date.{Dates, before, at_or_after}
use vsn_voice_ai.Js.Number.{max_safe_integer}
use mathlib.Core.Option.{get_or}
use vsn_voice_ai.DesktopLink.Record.{
  DesktopLinkRecord, consumed, revoked, is_issued, is_consumed, Failure, already_exists,
  DesktopLinkRecordStore,
}

abbrev pub Memory : Type 0
Memory = List (Text × DesktopLinkRecord)

abbrev pub has : Memory → Text → Bool
has m id = elim (Map.get m id) [ none ↦ false | some _ ↦ true ]

unfoldable pub put : DesktopLinkRecord → Exec Memory Failure (Unit {0})
put r m = if has m r.record_id then (err already_exists, m) else (ok tt, Map.set m r.record_id r)

unfoldable pub get : Text → Exec Memory Failure (Option DesktopLinkRecord)
get record_id m = (ok (Map.get m record_id), m)

-- The guard of `consumeIfIssued`.
abbrev pub consumable : Text → DesktopLinkRecord → Bool
consumable digest r = is_issued r.status && text_eq r.token_digest digest

abbrev pub revoked_record : DesktopLinkRecord → DesktopLinkRecord
revoked_record r = record r { status = revoked }

abbrev pub consumed_record : Text → DesktopLinkRecord → DesktopLinkRecord
consumed_record at r = record r { status = consumed; consumed_at = some at }

-- Both updates: nothing for a missing or unfit record, else the new record in the old one's place.
unfoldable pub update :
    Text
    → (DesktopLinkRecord → Bool)
    → (DesktopLinkRecord → DesktopLinkRecord)
    → Exec Memory Failure (Option DesktopLinkRecord)
update id fits change m = elim (Map.get m id) [
  | none ↦ (ok none, m)
  | some r ↦ if fits r then (ok (some (change r)), Map.set m id (change r)) else (ok none, m)
]

unfoldable pub consume_if_issued :
    Text → Text → Text → Exec Memory Failure (Option DesktopLinkRecord)
unfolding update
consume_if_issued id digest at = update id (consumable digest) (consumed_record at)

-- The sign of the comparator's time difference; `NaN` is sorted as zero, past the device names.
compare_times : Option ℕ → Option ℕ → Bool → Bool
compare_times (some l) (some r) by_name = ltb l r || not (ltb r l) && by_name
compare_times _ _ by_name = false

-- The loop's `continue` test, negated.
abbrev pub linked_to : Text → Text → DesktopLinkRecord → Bool
linked_to subject_id organization_id r =
    text_eq r.subject_id subject_id
    && text_eq r.organization_id organization_id
    && is_consumed r.status
    && is_some r.consumed_at

module _ (dates : Dates) where
  -- The guard of `revokeIfIssued`.
  unfoldable pub revocable : Text → Text → Text → DesktopLinkRecord → Bool
  revocable subject_id organization_id at r =
      is_issued r.status
      && text_eq r.subject_id subject_id
      && text_eq r.organization_id organization_id
      && is_some (dates.parse at)
      && not (before (dates.parse at) (dates.parse r.issued_at))
      && not (at_or_after (dates.parse at) (dates.parse r.expires_at))

  unfoldable pub revoke_if_issued :
      Text → Text → Text → Text → Exec Memory Failure (Option DesktopLinkRecord)
  unfolding update revocable
  revoke_if_issued id subject_id organization_id at =
      update id (revocable subject_id organization_id at) revoked_record

  -- `record.consumed_at` as an instant, `Date.parse(record.consumed_at ?? '')`
  abbrev pub linked_time : DesktopLinkRecord → Option ℕ
  linked_time r = dates.parse (get_or r.consumed_at [])

  -- `current === undefined || …`
  abbrev pub is_newer : Option DesktopLinkRecord → DesktopLinkRecord → Bool
  is_newer none r = true
  is_newer (some current) r = before (linked_time current) (linked_time r)

  -- One round of the loop over the records: what `latestByDevice` holds afterwards.
  unfoldable pub latest_step : Text → Text → DesktopLinkRecord → Memory → Memory
  latest_step subject_id organization_id r latest =
      if linked_to subject_id organization_id r && is_newer (Map.get latest r.device_id) r
      then Map.set latest r.device_id r
      else latest

  unfoldable pub latest_by_device : Text → Text → List DesktopLinkRecord → Memory → Memory
  unfolding latest_step
  latest_by_device subject_id organization_id [] latest = latest
  latest_by_device subject_id organization_id (r ∷ rs) latest =
      latest_by_device subject_id organization_id rs
        (latest_step subject_id organization_id r latest)

  module _ (locale_after : Text → Text → Bool) where
    -- The comparator's result is positive: `left` goes after `right`.
    unfoldable pub goes_after : DesktopLinkRecord → DesktopLinkRecord → Bool
    unfolding compare_times
    goes_after left right =
        compare_times (linked_time left) (linked_time right)
          (locale_after left.device_id right.device_id)

    -- `sort` is stable: each record goes behind those that need not follow it.
    unfoldable pub insert : DesktopLinkRecord → List DesktopLinkRecord → List DesktopLinkRecord
    unfolding goes_after
    insert r [] = r ∷ []
    insert r (x ∷ xs) = if goes_after x r then r ∷ x ∷ xs else x ∷ insert r xs

    unfoldable pub sort : List DesktopLinkRecord → List DesktopLinkRecord → List DesktopLinkRecord
    unfolding insert
    sort sorted [] = sorted
    sort sorted (r ∷ rs) = sort (insert r sorted) rs

    unfoldable pub list_latest_consumed :
        Text → Text → ℕ → Exec Memory Failure (List DesktopLinkRecord)
    unfolding latest_by_device sort
    list_latest_consumed subject_id organization_id limit m =
        if is_blank subject_id
          || is_blank organization_id
          || not (leb limit max_safe_integer)
          || ltb limit 1
        then (ok [], m)
        else (
          ok (
              take limit (
                sort []
                  (Map.values (latest_by_device subject_id organization_id (Map.values m) [])))),
          m,
        )

    -- `new InMemoryDesktopLinkRecordStore()` behind its interface
    abbrev pub memory_store : DesktopLinkRecordStore Memory
    memory_store = record {
      put = put;
      get = get;
      consume_if_issued = consume_if_issued;
      revoke_if_issued = revoke_if_issued;
      list_latest_consumed = list_latest_consumed;
    }
