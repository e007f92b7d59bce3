-- ===== src/DesktopLink/Service/Inspect.antt =====
-- desktop-link.service.ts: what `inspect` shows, and to whom.
use vsn_voice_ai.Prelude.{ℕ, ◌≡◌, refl, Bool, true, false, none, some, List, arith}
use vsn_voice_ai.Js.Text.{Text, text_eq_iff, text_eq_refl}
use vsn_voice_ai.Js.Map
use vsn_voice_ai.Js.Map.{get-set}
use vsn_voice_ai.Js.Result.{ok}
use vsn_voice_ai.Js.Exec.{Exec}
use vsn_voice_ai.Js.Date.{Dates}
use vsn_voice_ai.Identity.Principal.{AuthenticatedPrincipal}
use vsn_voice_ai.DesktopLink.Record.{DesktopLinkRecord, consumed, Failure}
use vsn_voice_ai.DesktopLink.Memory.{Memory, memory_store, get, consumed_record}
use vsn_voice_ai.DesktopLink.Memory.Calls.{StoreCall, run_calls}
use vsn_voice_ai.DesktopLink.Memory.Race.{run_calls-settled}
use vsn_voice_ai.DesktopLink.Service.{
  DesktopLinkStatusSnapshot, DesktopLinkBinding, inspect, effective_status, revoke, consume,
  require_lookup, snapshot_of, owned,
}
use vsn_voice_ai.DesktopLink.Service.Consume.{consume_iff, binding_of}

module _ (dates : Dates) (locale_after : Text → Text → Bool) where
  module _ (p : AuthenticatedPrincipal) (o id : Text) (now : ℕ) where
    abbrev run_inspect : Exec Memory Failure DesktopLinkStatusSnapshot
    run_inspect = inspect (memory_store dates locale_after) dates p o id now

    abbrev run_revoke : Exec Memory Failure DesktopLinkStatusSnapshot
    run_revoke = revoke (memory_store dates locale_after) dates p o id now

    inspect-foreign :
        (m : Memory) (r : DesktopLinkRecord)
        → Map.get m id ≡ some r
        → owned p.subject_id o r ≡ false
        → (m' : Memory) → Map.get m' id ≡ none
        → (run_inspect m).0 ≡ (run_inspect m').0
    unfolding inspect get
    inspect-foreign m r found foreign m' missing = ground arith

    revoke-foreign :
        (m : Memory) (r : DesktopLinkRecord)
        → Map.get m id ≡ some r
        → owned p.subject_id o r ≡ false
        → (m' : Memory) → Map.get m' id ≡ none
        → ((run_revoke m).0 ≡ (run_revoke m').0) × ((run_revoke m).1 ≡ m)
    unfolding revoke get
    revoke-foreign m r found foreign m' missing = ground arith

    -- To a caller of another subject or organization, `inspect` and `revoke` of a stored record answer
    -- as they do in a store without it, and `revoke` leaves it alone.
    pub foreign_record-hidden :
        (m m' : Memory) (r : DesktopLinkRecord)
        → Map.get m id ≡ some r
        → Map.get m' id ≡ none
        → owned p.subject_id o r ≡ false
        → ((run_inspect m).0 ≡ (run_inspect m').0)
          × ((run_revoke m).0 ≡ (run_revoke m').0)
          × ((run_revoke m).1 ≡ m)
    foreign_record-hidden m m' r found missing foreign =
        let (same, kept) = revoke-foreign m r found foreign m' missing in
        (inspect-foreign m r found foreign m' missing, same, kept)

    inspect-own :
        (m : Memory) (r : DesktopLinkRecord)
        → require_lookup p o id ≡ ok tt
        → Map.get m id ≡ some r
        → owned p.subject_id o r ≡ true
        → (run_inspect m).0 ≡ ok (snapshot_of r (effective_status dates r now) r.consumed_at)
    unfolding inspect get
    inspect-own m r named found owner = ground arith

  -- After a successful `consume`, whatever store calls follow, `inspect` by the same subject in the
  -- same organization reports the record as consumed, at the time of the consumption.
  pub consume-inspect :
      (sha256_hex : Text → Text) (p : AuthenticatedPrincipal) (o d id token : Text) (now now' : ℕ)
      (m m' : Memory) (b : DesktopLinkBinding) (between : List StoreCall)
      → consume (memory_store dates locale_after) dates sha256_hex p o d id token now m ≡ (ok b, m')
      → require_lookup p o id ≡ ok tt
      → (s : DesktopLinkStatusSnapshot) × ((run_inspect p o id now' (run_calls dates between m')).0
          ≡ ok s)
        × (s.status ≡ consumed)
        × (s.consumed_at ≡ some b.consumed_at)
        × (s.device_id ≡ b.device_id)
        × (s.record_id ≡ b.record_id)
  unfolding binding_of effective_status
  consume-inspect sha256_hex p o d id token now now' m m' b between h named =
      let (r, found, may, eb, em) =
        (consume_iff dates locale_after sha256_hex p o d id token now m b m').0 h in
      let c : DesktopLinkRecord = consumed_record (dates.to_iso now) r in
      let stays =
        run_calls-settled dates between m' id c (rw em (rw get-set (rw text_eq_refl refl))) refl in
      let owner : owned p.subject_id o c ≡ true = ground (
        arith,
        text_eq_iff r.subject_id p.subject_id,
        text_eq_iff r.organization_id o,
        may.subject,
        may.organization,
      ) in
      (
        snapshot_of c consumed (some (dates.to_iso now)),
        inspect-own p o id now' (run_calls dates between m') c named stays owner,
        refl,
        rw eb refl,
        rw eb refl,
        rw eb refl,
      )
