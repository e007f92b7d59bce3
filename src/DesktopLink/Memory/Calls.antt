-- ===== src/DesktopLink/Memory/Calls.antt =====
-- The calls that may change the in-memory store, and sequences of them: each method runs without
-- waiting, so every interleaving of requests is such a sequence.
use vsn_voice_ai.Prelude.{
  ◌≡◌, Bool, false, ◌&&◌, Option, some, List, [], ◌∷◌, arith, if◌then◌else◌, Option-cases, inl, inr,
}
use vsn_voice_ai.Js.Text.{Text, text_eq, text_eq_iff}
use vsn_voice_ai.Js.Map
use vsn_voice_ai.Js.Map.{get-set}
use vsn_voice_ai.Js.Result.{Result, ok}
use vsn_voice_ai.Js.Date.{Dates}
use vsn_voice_ai.DesktopLink.Record.{DesktopLinkRecord, Failure}
use vsn_voice_ai.DesktopLink.Memory.{
  Memory, put, consume_if_issued, revoke_if_issued, revocable, update, consumable, consumed_record,
  revoked_record,
}

pub data StoreCall : Type 0 where
  put_call : DesktopLinkRecord → StoreCall
  consume_call : Text → Text → Text → StoreCall
  revoke_call : Text → Text → Text → Text → StoreCall

-- The record on which a call ends the exchange, if it does.
abbrev pub settles : Text → Result Failure (Option DesktopLinkRecord) → Bool → Bool
settles id (ok (some r)) same = same
settles id _ same = false

-- What an update leaves under each key.
pub get-update :
    (id : Text) (fits : DesktopLinkRecord → Bool) (change : DesktopLinkRecord → DesktopLinkRecord)
    (m : Memory) (j : Text) (r : DesktopLinkRecord)
    → Map.get m j ≡ some r
    → Map.get (update id fits change m).1 j ≡ some (if text_eq id j && fits r then change r else r)
unfolding update
get-update id fits change m j r h = elim (Option-cases (Map.get m id)) [
  | inl missing ↦ ground (arith, text_eq_iff id j)
  | inr (q, found) ↦ ground (arith, get-set m id j (change q), text_eq_iff id j)
]

module _ (dates : Dates) where
  unfoldable pub run_call : StoreCall → Memory → Memory
  run_call (put_call r) m = (put r m).1
  run_call (consume_call id digest at) m = (consume_if_issued id digest at m).1
  run_call (revoke_call id subject_id organization_id at) m =
      (revoke_if_issued dates id subject_id organization_id at m).1

  -- Whether the call returns the record `id` as consumed or revoked.
  unfoldable pub wins : Text → StoreCall → Memory → Bool
  wins id (put_call r) m = false
  wins id (consume_call id' digest at) m =
      settles id (consume_if_issued id' digest at m).0 (text_eq id' id)
  wins id (revoke_call id' subject_id organization_id at) m =
      settles id (revoke_if_issued dates id' subject_id organization_id at m).0 (text_eq id' id)

  unfoldable pub run_calls : List StoreCall → Memory → Memory
  unfolding run_call
  run_calls [] m = m
  run_calls (c ∷ cs) m = run_calls cs (run_call c m)

  -- What a call makes of the record that is stored as `j`.
  unfoldable pub touch : StoreCall → Text → DesktopLinkRecord → DesktopLinkRecord
  touch (put_call p) j r = r
  touch (consume_call id digest at) j r =
      if text_eq id j && consumable digest r then consumed_record at r else r
  touch (revoke_call id subject_id organization_id at) j r =
      if text_eq id j && revocable dates subject_id organization_id at r
      then revoked_record r
      else r

  pub get-run_call :
      (c : StoreCall) (m : Memory) (j : Text) (r : DesktopLinkRecord)
      → Map.get m j ≡ some r
      → Map.get (run_call c m) j ≡ some (touch c j r)
  unfolding run_call put consume_if_issued revoke_if_issued touch
  get-run_call (put_call p) m j r h =
      ground (arith, get-set m p.record_id j p, text_eq_iff p.record_id j)
  get-run_call (consume_call id digest at) m j r h =
      get-update id (consumable digest) (consumed_record at) m j r h
  get-run_call (revoke_call id sub org at) m j r h =
      get-update id (revocable dates sub org at) revoked_record m j r h
